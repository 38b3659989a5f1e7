-- ===== src/Stages/Traces.antt =====
-- Forward passes in which calls are nested, as the timer sees them.
use streaming_tts_serving.Base.{
  ℕ, ◌≡◌, ◌∙◌, refl, ap, false, List, [], ◌∷◌, ◌++◌, All, if◌then◌else◌, Bool-cases, inl, inr,
  append-nil,
}
use streaming_tts_serving.Base.Text.{Text, text_eq}
use streaming_tts_serving.Base.TextLaws.{text_eq_iff}
use streaming_tts_serving.Stages.{Event, enter, leave}

-- A call of a module: its name, and when it began and ended.
abbrev pub Call : Type 0
Call = Text × ℕ × ℕ

abbrev pub NotIn : Text → List Call → Type 0
NotIn n = All (λ c. text_eq (c.0) n ≡ false)

-- What a forward pass lets the timer see, and the calls in it in the order of their ends: each call ends behind
-- the calls that it makes, and none of them is of its own module.
pub data Trace : List Event → List Call → Type 0 where
  done : Trace [] []
  call :
      {inner rest : List Event} {made others : List Call} (n : Text) (t t' : ℕ)
      → Trace inner made
      → NotIn n made
      → Trace rest others
      → Trace (enter n t ∷ inner ++ leave n t' ∷ rest) (made ++ (n, t, t') ∷ others)

-- when the calls of a module began and ended
unfoldable pub times : Text → List Call → List (ℕ × ℕ)
times m [] = []
times m ((n, t, t') ∷ cs) = let rest = times m cs in if text_eq n m then (t, t') ∷ rest else rest

pub times-append : (m : Text) (cs ds : List Call) → times m (cs ++ ds) ≡ times m cs ++ times m ds
unfolding times
times-append m [] ds = refl
times-append m ((n, t, t') ∷ cs) ds = elim (Bool-cases (text_eq n m)) [
  | inl e ↦ rw e (ap (◌∷◌ (t, t')) (times-append m cs ds))
  | inr e ↦ rw e (times-append m cs ds)
]

pub times_last :
    (n : Text) (t t' : ℕ) (cs : List Call)
    → times n (cs ++ (n, t, t') ∷ []) ≡ times n cs ++ (t, t') ∷ []
unfolding times
times_last n t t' cs = times-append n cs ((n, t, t') ∷ []) ∙ ap (λ ps. times n cs ++ ps) own
  where
    own : times n ((n, t, t') ∷ []) ≡ (t, t') ∷ []
    own = rw ((text_eq_iff n n).1 refl, times) refl

pub times_other :
    (n m : Text) (t t' : ℕ) (cs : List Call)
    → text_eq n m ≡ false
    → times m (cs ++ (n, t, t') ∷ []) ≡ times m cs
unfolding times
times_other n m t t' cs e =
    times-append m cs ((n, t, t') ∷ [])
    ∙ ap (λ ps. times m cs ++ ps) none_of_it
    ∙ append-nil (times m cs)
  where
    none_of_it : times m ((n, t, t') ∷ []) ≡ []
    none_of_it = rw (e, times) refl
