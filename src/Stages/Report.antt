-- ===== src/Stages/Report.antt =====
-- The times that `main` reports, against the time of the whole run.
use mathlib.Core.Path.{subst}
use streaming_tts_serving.Base.{
  ℕ, ◌+◌, ◌-◌, ◌≤◌, ◌≡◌, ◌∙◌, refl, sym, ap, ap₂, Bool, true, false, List, [], ◌∷◌, ◌++◌, map, All,
  leb, Bool-cases, inl, inr, arith,
}
use streaming_tts_serving.Base.Text.{Text, text_eq}
use streaming_tts_serving.Base.TextLaws.{text_eq_iff}
use streaming_tts_serving.Stages.{
  StageTimer, with_module, init, is_hooked, elapsed, collect, Event, collected, step, run, sum,
  rows, accounted, insert, by_time,
}
use streaming_tts_serving.Stages.Laws.{run-append}
use streaming_tts_serving.Stages.Traces.{Call, Trace, times}
use streaming_tts_serving.Stages.Seen.{run-Seen}

-- Calls that follow on one another between two times: none is made by another.
abbrev pub Apart : ℕ → ℕ → List Call → Type 0
Apart from to [] = from ≤ to
Apart from to ((n, t, t') ∷ cs) = (from ≤ t) × (t ≤ t') × Apart t' to cs

abbrev pub Distinct : List Text → Type 0
Distinct [] = Unit
Distinct (n ∷ ns) = All (λ m. text_eq n m ≡ false) ns × Distinct ns

-- the time that calls of the named modules took
abbrev spent : List Text → List Call → ℕ
spent [] cs = 0
spent (n ∷ ns) cs = sum (map elapsed (times n cs)) + spent ns cs

spent_none : (ns : List Text) → spent ns [] ≡ 0
unfolding times sum
spent_none [] = refl
spent_none (n ∷ ns) = omega (arith, spent_none ns)

times_skip :
    (m n : Text) (t t' : ℕ) (cs : List Call)
    → text_eq n m ≡ false
    → times m ((n, t, t') ∷ cs) ≡ times m cs
unfolding times
times_skip m n t t' cs e = rw e refl

times_take :
    (m n : Text) (t t' : ℕ) (cs : List Call)
    → text_eq n m ≡ true
    → times m ((n, t, t') ∷ cs) ≡ (t, t') ∷ times m cs
unfolding times
times_take m n t t' cs e = rw e refl

spent_skip :
    (ns : List Text) (n : Text) (t t' : ℕ) (cs : List Call)
    → All (λ m. text_eq n m ≡ false) ns
    → spent ns ((n, t, t') ∷ cs) ≡ spent ns cs
spent_skip [] n t t' cs h = refl
spent_skip (m ∷ ns) n t t' cs (h, hs) =
    ap₂ (λ ps k. sum (map elapsed ps) + k) (times_skip m n t t' cs h) (spent_skip ns n t t' cs hs)

spent_step :
    (ns : List Text) (n : Text) (t t' : ℕ) (cs : List Call)
    → Distinct ns
    → spent ns ((n, t, t') ∷ cs) ≤ (t' - t) + spent ns cs
unfolding sum elapsed
spent_step [] n t t' cs d = omega arith
spent_step (m ∷ ns) n t t' cs (d, ds) = elim (Bool-cases (text_eq n m)) [
  | inr e ↦ omega (
    arith,
    ap (λ ps. sum (map elapsed ps)) (times_skip m n t t' cs e),
    spent_step ns n t t' cs ds,
  )
  | inl e ↦ omega (
    arith,
    ap (λ ps. sum (map elapsed ps)) (times_take m n t t' cs e),
    spent_skip ns n t t' cs
        (subst (λ k. All (λ j. text_eq k j ≡ false) ns) (sym ((text_eq_iff n m).0 e)) d),
  )
]

spent-Apart :
    (ns : List Text) (cs : List Call) (from to : ℕ)
    → Distinct ns
    → Apart from to cs
    → (spent ns cs ≤ to - from) × (from ≤ to)
spent-Apart ns [] from to d h = (omega (arith, spent_none ns), h)
spent-Apart ns ((n, t, t') ∷ cs) from to d (h, h', rest) =
    let (k, l) = spent-Apart ns cs t' to d rest in
    (omega (arith, spent_step ns n t t' cs d), omega arith)

accounted-insert :
    (r : Text × ℕ × ℕ) (rs : List (Text × ℕ × ℕ)) → accounted (insert r rs) ≡ accounted (r ∷ rs)
unfolding accounted insert
accounted-insert r [] = refl
accounted-insert r (s ∷ rs) = elim (Bool-cases (leb (s.1) (r.1))) [
  | inl e ↦ rw e refl
  | inr e ↦ rw e (omega (arith, accounted-insert r rs))
]

accounted-by_time : (rs : List (Text × ℕ × ℕ)) → accounted (by_time rs) ≡ accounted rs
unfolding accounted by_time
accounted-by_time [] = refl
accounted-by_time (r ∷ rs) =
    accounted-insert r (by_time rs) ∙ ap (λ k. r.1 + k) (accounted-by_time rs)

-- a stage that did not run has no row, and no time
accounted_row :
    (n : Text) (calls : ℕ) (rest : List (Text × ℕ × ℕ)) (ts : List ℕ)
    → accounted (elim ts [ [] ↦ rest | v ∷ vs ↦ (n, sum (v ∷ vs), calls) ∷ rest ])
      ≡ sum ts + accounted rest
unfolding accounted sum
accounted_row n calls rest [] = omega arith
accounted_row n calls rest (v ∷ vs) = refl

accounted-rows :
    (s : StageTimer) (ns : List Text) (cs : List Call)
    → ((m : Text) → sum (s.totals m) ≤ sum (map elapsed (times m cs)))
    → accounted (rows s ns) ≤ spent ns cs
unfolding rows
accounted-rows s [] cs h = unfold accounted in omega arith
accounted-rows s (n ∷ ns) cs h =
    omega
      (arith, accounted_row n (s.calls n) (rows s ns) (s.totals n), h n, accounted-rows s ns cs h)

-- a stage's totals are the times of its calls, or none
totals-collect :
    (has : Text → Bool) (names : List Text) (es : List Event) (cs : List Call) (m : Text)
    → Trace es cs
    → sum ((collect (run (init has names) es)).totals m) ≤ sum (map elapsed (times m cs))
unfolding collect init sum
totals-collect has names es cs m trace =
    let seen = run-Seen (init has names) trace in
    let none_before =
      ap (λ ts. ts ++ map elapsed ((run (init has names) es).pairs m)) (seen.same_totals m) in
    elim (Bool-cases (is_hooked (with_module has names) m)) [
      | inl h ↦ omega (arith, ap sum (none_before ∙ ap (map elapsed) (seen.seen_pairs m h)))
      | inr h ↦ omega (arith, ap sum (none_before ∙ ap (map elapsed) (seen.unseen_pairs m h)))
    ]

-- The stages never account for more time than the run took: where the calls of the forward passes follow on one
-- another between two times, and no stage is listed twice, the rows of the report add up to at most the time
-- between the two, so what is left for the rest is not negative.
pub accounted-run :
    (has : Text → Bool) (names : List Text) (es : List Event) (cs : List Call) (from to : ℕ)
    → Trace es cs
    → Apart from to cs
    → Distinct names
    → accounted (by_time (rows (run (init has names) (es ++ collected ∷ [])) names)) ≤ to - from
unfolding run step
accounted-run has names es cs from to trace apart d =
    subst (λ r. accounted (by_time (rows r names)) ≤ to - from)
      (sym (run-append (init has names) es (collected ∷ [])))
      (omega (
        arith,
        accounted-by_time (rows (collect s) names),
        accounted-rows (collect s) names cs within,
        (spent-Apart names cs from to d apart).0,
      ))
  where
    s : StageTimer
    s = run (init has names) es

    within : (m : Text) → sum ((collect s).totals m) ≤ sum (map elapsed (times m cs))
    within m = totals-collect has names es cs m trace
