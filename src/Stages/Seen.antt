-- ===== src/Stages/Seen.antt =====
-- How a forward pass changes the timer.
use mathlib.Core.Path.{subst}
use streaming_tts_serving.Base.{
  ℕ, ◌≡◌, ◌∙◌, refl, sym, ap, true, false, none, some, List, [], ◌∷◌, ◌++◌, Bool-cases, inl, inr,
  append_assoc, append-nil,
}
use streaming_tts_serving.Base.Text.{Text, text_eq}
use streaming_tts_serving.Base.TextLaws.{text_eq_iff}
use streaming_tts_serving.Stages.{
  update, StageTimer, is_hooked, pre, post, Event, enter, leave, step, run,
}
use streaming_tts_serving.Stages.Laws.{closed, post-some, update_same, update_other, run-append}
use streaming_tts_serving.Stages.Traces.{
  Call, NotIn, Trace, done, call, times, times-append, times_last, times_other,
}

-- How the timer `s` has become `s'` by the calls.
pub record Seen (s s' : StageTimer) (cs : List Call) : Type 0 where
  pub same_handles : s'.handles ≡ s.handles
  pub seen_pairs : (m : Text) → is_hooked s.handles m ≡ true → s'.pairs m ≡ s.pairs m ++ times m cs
  pub unseen_pairs : (m : Text) → is_hooked s.handles m ≡ false → s'.pairs m ≡ s.pairs m
  pub same_totals : (m : Text) → s'.totals m ≡ s.totals m
  pub kept_open : (m : Text) → NotIn m cs → s'.opened m ≡ s.opened m

Seen-refl : (s : StageTimer) → Seen s s []
unfolding times
Seen-refl s = record {
  same_handles = refl;
  seen_pairs = λ m h. sym (append-nil (s.pairs m));
  unseen_pairs = λ m h. refl;
  same_totals = λ m. refl;
  kept_open = λ m h. refl;
}

NotIn-left : (m : Text) (cs ds : List Call) → NotIn m (cs ++ ds) → NotIn m cs
NotIn-left m [] ds h = tt
NotIn-left m (c ∷ cs) ds (h, hs) = (h, NotIn-left m cs ds hs)

NotIn-right : (m : Text) (cs ds : List Call) → NotIn m (cs ++ ds) → NotIn m ds
NotIn-right m [] ds h = h
NotIn-right m (c ∷ cs) ds (h, hs) = NotIn-right m cs ds hs

Seen-append :
    (s s' s'' : StageTimer) (cs ds : List Call)
    → Seen s s' cs
    → Seen s' s'' ds
    → Seen s s'' (cs ++ ds)
Seen-append s s' s'' cs ds a b = record {
  same_handles = b.same_handles ∙ a.same_handles;
  seen_pairs = λ m h.
      b.seen_pairs m (ap (λ hs. is_hooked hs m) a.same_handles ∙ h)
      ∙ ap (λ ps. ps ++ times m ds) (a.seen_pairs m h)
      ∙ append_assoc (s.pairs m) (times m cs) (times m ds)
      ∙ ap (λ ps. s.pairs m ++ ps) (sym (times-append m cs ds));
  unseen_pairs =
      λ m h. b.unseen_pairs m (ap (λ hs. is_hooked hs m) a.same_handles ∙ h) ∙ a.unseen_pairs m h;
  same_totals = λ m. b.same_totals m ∙ a.same_totals m;
  kept_open = λ m h. b.kept_open m (NotIn-right m cs ds h) ∙ a.kept_open m (NotIn-left m cs ds h);
}

Seen-closed :
    (s s' : StageTimer) (n : Text) (t t' : ℕ) (cs : List Call)
    → is_hooked s.handles n ≡ true
    → Seen (pre n t s) s' cs
    → Seen s (closed n t t' s') (cs ++ (n, t, t') ∷ [])
unfolding pre
Seen-closed s s' n t t' cs hooked a = record {
  same_handles = a.same_handles;
  seen_pairs = λ m h. elim (Bool-cases (text_eq n m)) [
    | inl e ↦
        let q : n ≡ m = (text_eq_iff n m).0 e in
        subst
          (λ k.
            update s'.pairs n (s'.pairs n ++ (t, t') ∷ []) k
            ≡ s.pairs k ++ times k (cs ++ (n, t, t') ∷ []))
          q (own (subst (λ k. is_hooked s.handles k ≡ true) (sym q) h))
    | inr e ↦
        update_other s'.pairs n (s'.pairs n ++ (t, t') ∷ []) m e
        ∙ a.seen_pairs m h
        ∙ ap (λ ps. s.pairs m ++ ps) (sym (times_other n m t t' cs e))
  ];
  unseen_pairs = λ m h. elim (Bool-cases (text_eq n m)) [
    | inl e ↦ absurd (both m h (ap (is_hooked s.handles) ((text_eq_iff n m).0 e)))
    | inr e ↦ update_other s'.pairs n (s'.pairs n ++ (t, t') ∷ []) m e ∙ a.unseen_pairs m h
  ];
  same_totals = a.same_totals;
  kept_open = λ m h.
      let e : text_eq n m ≡ false = (NotIn-right m cs ((n, t, t') ∷ []) h).0 in
      update_other s'.opened n none m e
      ∙ a.kept_open m (NotIn-left m cs ((n, t, t') ∷ []) h)
      ∙ update_other s.opened n (some t) m e;
}
  where
    both :
        (m : Text)
        → is_hooked s.handles m ≡ false
        → is_hooked s.handles n ≡ is_hooked s.handles m
        → ⊥
    both m h e = cc

    own :
        is_hooked s.handles n ≡ true
        → update s'.pairs n (s'.pairs n ++ (t, t') ∷ []) n
          ≡ s.pairs n ++ times n (cs ++ (n, t, t') ∷ [])
    own h =
        update_same s'.pairs n (s'.pairs n ++ (t, t') ∷ [])
        ∙ ap (λ ps. ps ++ (t, t') ∷ []) (a.seen_pairs n h)
        ∙ append_assoc (s.pairs n) (times n cs) ((t, t') ∷ [])
        ∙ ap (λ ps. s.pairs n ++ ps) (sym (times_last n t t' cs))

Seen-skipped :
    (s s' : StageTimer) (n : Text) (t t' : ℕ) (cs : List Call)
    → is_hooked s.handles n ≡ false
    → Seen s s' cs
    → Seen s s' (cs ++ (n, t, t') ∷ [])
Seen-skipped s s' n t t' cs off a = record {
  same_handles = a.same_handles;
  seen_pairs = λ m h. elim (Bool-cases (text_eq n m)) [
    | inl e ↦ absurd (both m h (ap (is_hooked s.handles) ((text_eq_iff n m).0 e)))
    | inr e ↦ a.seen_pairs m h ∙ ap (λ ps. s.pairs m ++ ps) (sym (times_other n m t t' cs e))
  ];
  unseen_pairs = a.unseen_pairs;
  same_totals = a.same_totals;
  kept_open = λ m h. a.kept_open m (NotIn-left m cs ((n, t, t') ∷ []) h);
}
  where
    both :
        (m : Text)
        → is_hooked s.handles m ≡ true
        → is_hooked s.handles n ≡ is_hooked s.handles m
        → ⊥
    both m h e = cc

on :
    (s : StageTimer) (n : Text) (t : ℕ)
    → is_hooked s.handles n ≡ true
    → (step s (enter n t) ≡ pre n t s) × (step s (leave n t) ≡ post n t s)
unfolding step
on s n t h = (rw h refl, rw h refl)

pub off :
    (s : StageTimer) (n : Text) (t : ℕ)
    → is_hooked s.handles n ≡ false
    → (step s (enter n t) ≡ s) × (step s (leave n t) ≡ s)
unfolding step
off s n t h = (rw h refl, rw h refl)

-- a call, with what it makes
Seen-call :
    (s s' : StageTimer) (n : Text) (t t' : ℕ) (cs : List Call)
    → NotIn n cs
    → Seen (step s (enter n t)) s' cs
    → Seen s (step s' (leave n t')) (cs ++ (n, t, t') ∷ [])
unfolding pre
Seen-call s s' n t t' cs out a = elim (Bool-cases (is_hooked s.handles n)) [
  | inl h ↦
      let b : Seen (pre n t s) s' cs = subst (λ r. Seen r s' cs) (on s n t h).0 a in
      let h' : is_hooked s'.handles n ≡ true = ap (λ hs. is_hooked hs n) b.same_handles ∙ h in
      let begun : s'.opened n ≡ some t = b.kept_open n out ∙ update_same s.opened n (some t) in
      subst (λ r. Seen s r (cs ++ (n, t, t') ∷ []))
        (sym ((on s' n t' h').1 ∙ post-some n t t' s' begun)) (Seen-closed s s' n t t' cs h b)
  | inr h ↦
      let b : Seen s s' cs = subst (λ r. Seen r s' cs) (off s n t h).0 a in
      let h' : is_hooked s'.handles n ≡ false = ap (λ hs. is_hooked hs n) b.same_handles ∙ h in
      subst (λ r. Seen s r (cs ++ (n, t, t') ∷ [])) (sym (off s' n t' h').1)
        (Seen-skipped s s' n t t' cs h b)
]

pub run-Seen :
    (s : StageTimer) {es : List Event} {cs : List Call} → Trace es cs → Seen s (run s es) cs
unfolding run
run-Seen s done = Seen-refl s
run-Seen s (call {inner} {rest} {made} {others} n t t' a out b) =
    let s1 = step s (enter n t) in
    let s2 = run s1 inner in
    let s3 = step s2 (leave n t') in
    subst (λ r. Seen s r (made ++ (n, t, t') ∷ others))
      (sym (run-append s1 inner (leave n t' ∷ rest)))
      (subst (Seen s (run s3 rest)) (append_assoc made ((n, t, t') ∷ []) others) (
        Seen-append s s3 (run s3 rest) (made ++ (n, t, t') ∷ []) others
          (Seen-call s s2 n t t' made out (run-Seen s1 a)) (run-Seen s3 b)))
