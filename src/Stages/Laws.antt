-- ===== src/Stages/Laws.antt =====
-- What the timer counts.
use mathlib.Core.Path.{subst}
use streaming_tts_serving.Base.{
  if_both, ℕ, ◌+◌, ◌≡◌, ◌∙◌, refl, sym, ap, Bool, false, none, some, List, [], ◌∷◌, ◌++◌, map,
  length, Bool-cases, Option-cases, inl, inr, arith, length-append, length-map,
}
use streaming_tts_serving.Base.Text.{Text, text_eq}
use streaming_tts_serving.Base.TextLaws.{text_eq_iff}
use streaming_tts_serving.Stages.{
  update, StageTimer, init, is_hooked, pre, post, elapsed, collect, remove, Event, enter, leave,
  collected, removed, step, run,
}

-- each counted call has a pair or a total
abbrev pub Counted : StageTimer → Type 0
Counted s = (m : Text) → s.calls m ≡ length (s.totals m) + length (s.pairs m)

-- `_post` for a call that was seen to begin at `start`
abbrev pub closed : Text → ℕ → ℕ → StageTimer → StageTimer
closed n start t s = record s {
  opened = update s.opened n none;
  pairs = update s.pairs n (s.pairs n ++ (start, t) ∷ []);
  calls = update s.calls n (s.calls n + 1);
}

post-none : (n : Text) (t : ℕ) (s : StageTimer) → s.opened n ≡ none → post n t s ≡ s
unfolding post
post-none n t s e = rw (e, post) refl

pub post-some :
    (n : Text) (start t : ℕ) (s : StageTimer)
    → s.opened n ≡ some start
    → post n t s ≡ closed n start t s
unfolding post
post-some n start t s e = rw (e, post) refl

pub update_same : {A : Type 0} (d : Text → A) (n : Text) (v : A) → update d n v n ≡ v
unfolding update
update_same d n v = rw ((text_eq_iff n n).1 refl) refl

pub update_other :
    {A : Type 0} (d : Text → A) (n : Text) (v : A) (m : Text)
    → text_eq n m ≡ false
    → update d n v m ≡ d m
unfolding update
update_other d n v m e = rw e refl

closed-Counted :
    (n : Text) (start t : ℕ) (s : StageTimer) → Counted s → Counted (closed n start t s)
closed-Counted n start t s h m = elim (Bool-cases (text_eq n m)) [
  | inr q ↦
      update_other s.calls n (s.calls n + 1) m q
      ∙ h m
      ∙ ap (λ ps. length (s.totals m) + length ps)
          (sym (update_other s.pairs n (s.pairs n ++ (start, t) ∷ []) m q))
  | inl q ↦
      subst
        (λ k.
          (closed n start t s).calls k
          ≡ length (s.totals k) + length ((closed n start t s).pairs k))
        ((text_eq_iff n m).0 q)
        (omega (
          arith,
          update_same s.calls n (s.calls n + 1),
          ap length (update_same s.pairs n (s.pairs n ++ (start, t) ∷ [])),
          length-append (s.pairs n) ((start, t) ∷ []),
          h n,
        ))
]

post-Counted : (n : Text) (t : ℕ) (s : StageTimer) → Counted s → Counted (post n t s)
post-Counted n t s h = elim (Option-cases (s.opened n)) [
  | inl e ↦ subst Counted (sym (post-none n t s e)) h
  | inr (start, e) ↦ subst Counted (sym (post-some n start t s e)) (closed-Counted n start t s h)
]

step-Counted : (s : StageTimer) (e : Event) → Counted s → Counted (step s e)
unfolding step pre collect remove
step-Counted s (enter n t) h = if_both Counted (is_hooked s.handles n) _ _ h h
step-Counted s (leave n t) h = if_both Counted (is_hooked s.handles n) _ _ (post-Counted n t s h) h
step-Counted s collected h = λ m. omega (
  arith,
  h m,
  length-append (s.totals m) (map elapsed (s.pairs m)),
  length-map (s.pairs m) elapsed,
)
step-Counted s removed h = h

pub run-Counted : (s : StageTimer) (es : List Event) → Counted s → Counted (run s es)
unfolding run
run-Counted s [] h = h
run-Counted s (e ∷ es) h = run-Counted (step s e) es (step-Counted s e h)

pub run-append : (s : StageTimer) (es fs : List Event) → run s (es ++ fs) ≡ run (run s es) fs
unfolding run
run-append s [] fs = refl
run-append s (e ∷ es) fs = run-append (step s e) es fs

-- Whatever the timer goes through, passes that raise and passes that begin before its hooks are there included,
-- each call that it counts has one time: at the end of a report, `calls` is the number of totals.
pub run-calls :
    (has : Text → Bool) (names : List Text) (es : List Event) (m : Text)
    → (run (init has names) (es ++ collected ∷ [])).calls m
      ≡ length ((run (init has names) (es ++ collected ∷ [])).totals m)
unfolding run step collect init
run-calls has names es m =
    subst (λ r. r.calls m ≡ length (r.totals m))
      (sym (run-append (init has names) es (collected ∷ [])))
      (omega (arith, step-Counted s collected (run-Counted (init has names) es (λ k. refl)) m))
  where
    s : StageTimer
    s = run (init has names) es
