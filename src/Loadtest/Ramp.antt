-- ===== src/Loadtest/Ramp.antt =====
-- Which levels a run of the load driver holds.
use streaming_tts_serving.Base.{ℕ, ◌≡◌, true, false, List, [], ◌∷◌, Bool-cases, inl, inr}
use streaming_tts_serving.Loadtest.{Summary, is_broken, ramp}

-- The levels of a run, each begun where the one before it ends: all of them, none of which is
-- broken but perhaps the last, or those up to the first that is.
pub data Climbs {S : Type 0} (run : ℕ → S → Summary × S) : List ℕ → S → List Summary → Type 0 where
  summit : (s : S) → Climbs run [] s []
  stop :
      (c : ℕ) (cs : List ℕ) (s : S)
      → is_broken ((run c s).0) ≡ true
      → Climbs run (c ∷ cs) s ((run c s).0 ∷ [])
  climb :
      (c : ℕ) (cs : List ℕ) (s : S) (rs : List Summary)
      → is_broken ((run c s).0) ≡ false
      → Climbs run cs ((run c s).1) rs
      → Climbs run (c ∷ cs) s ((run c s).0 ∷ rs)

-- `main` climbs the levels in their order and stops behind the first that is broken: one where
-- nothing completed, or where more than a fifth of the requests failed.
pub ramp-Climbs :
    {S : Type 0} (run : ℕ → S → Summary × S) (cs : List ℕ) (s : S) → Climbs run cs s (ramp run cs s)
unfolding ramp
ramp-Climbs run [] s = summit s
ramp-Climbs run (c ∷ cs) s =
    let rest = ramp-Climbs run cs ((run c s).1) in
    elim (Bool-cases (is_broken ((run c s).0))) [
      | inl e ↦ rw e (stop c cs s e)
      | inr e ↦ rw e (climb c cs s _ e rest)
    ]
