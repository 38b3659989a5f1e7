-- ===== src/Runner/Laws.antt =====
-- The engine is never run on the shape of an earlier call.
use mathlib.Core.Path.{subst}
use streaming_tts_serving.Base.{
  true, false, some, List, [], ◌∷◌, ◌≡◌, ◌∙◌, refl, sym, ap, All, Bool-cases, inl, inr,
}
use streaming_tts_serving.Base.Text.{Text, text_eq}
use streaming_tts_serving.Base.TextLaws.{text_eq_iff}
use streaming_tts_serving.Base.Result.{Result, ok, raise, ◌>>=◌}
use streaming_tts_serving.Runner.{
  Shape, Tensor, is_in_profile, Context, shape_of, set_input_shape, RunnerError, outside_profile,
  feed, call,
}

-- No two feeds have one name.
abbrev pub Distinct : List (Text × Shape) → Type 0
Distinct [] = Unit
Distinct ((n, s) ∷ fs) = All (λ f. text_eq (f.0) n ≡ false) fs × Distinct fs

-- The shapes of the feeds are those that the engine has, and it takes them.
abbrev pub Taken : List Tensor → Context → List (Text × Shape) → Type 0
Taken ts c fs =
    All (λ f. (is_in_profile ts (f.0) (f.1) ≡ true) × (shape_of c (f.0) ≡ some (f.1))) fs

text_eq_self : (n : Text) → text_eq n n ≡ true
text_eq_self n = (text_eq_iff n n).1 refl

feed-keeps :
    (ts : List Tensor) (c : Context) (fs : List (Text × Shape)) (m : Text)
    → All (λ f. text_eq (f.0) m ≡ false) fs
    → shape_of ((feed ts c fs).0) m ≡ shape_of c m
unfolding feed set_input_shape shape_of
feed-keeps ts c [] m h = refl
feed-keeps ts c ((n, s) ∷ fs) m (h, hs) = elim (Bool-cases (is_in_profile ts n s)) [
  | inl e ↦ rw e (feed-keeps ts ((n, s) ∷ c) fs m hs ∙ other)
  | inr e ↦ rw e refl
]
  where
    other : shape_of ((n, s) ∷ c) m ≡ shape_of c m
    other = rw (h, shape_of) refl

feed-step :
    (ts : List Tensor) (c : Context) (n : Text) (s : Shape) (fs : List (Text × Shape))
    → is_in_profile ts n s ≡ true
    → feed ts c ((n, s) ∷ fs) ≡ feed ts ((n, s) ∷ c) fs
unfolding feed set_input_shape
feed-step ts c n s fs e = rw e refl

feed-stop :
    (ts : List Tensor) (c : Context) (n : Text) (s : Shape) (fs : List (Text × Shape))
    → is_in_profile ts n s ≡ false
    → feed ts c ((n, s) ∷ fs) ≡ (c, raise (outside_profile n s))
unfolding feed set_input_shape
feed-stop ts c n s fs e = rw e refl

shape_of-head : (n : Text) (s : Shape) (c : Context) → shape_of ((n, s) ∷ c) n ≡ some s
unfolding shape_of
shape_of-head n s c = rw (text_eq_self n) refl

feed-Taken :
    (ts : List Tensor) (c : Context) (fs : List (Text × Shape))
    → Distinct fs
    → (feed ts c fs).1 ≡ ok tt
    → Taken ts ((feed ts c fs).0) fs
feed-Taken ts c [] d h = tt
feed-Taken ts c ((n, s) ∷ fs) (d, ds) h = elim (Bool-cases (is_in_profile ts n s)) [
  | inl e ↦
      let step = feed-step ts c n s fs e in
      subst (λ r. Taken ts (r.0) ((n, s) ∷ fs)) (sym step)
        (
          (e, feed-keeps ts ((n, s) ∷ c) fs n d ∙ shape_of-head n s c),
          feed-Taken ts ((n, s) ∷ c) fs ds (sym (ap (λ r. r.1) step) ∙ h),
        )
  | inr e ↦ absurd (refused (n, s) (sym (ap (λ r. r.1) (feed-stop ts c n s fs e)) ∙ h))
]
  where
    refused : (f : Text × Shape) → raise (outside_profile (f.0) (f.1)) ≡ ok (tt {0}) → ⊥
    refused f h = cc

feed-accepts :
    (ts : List Tensor) (c : Context) (fs : List (Text × Shape))
    → All (λ f. is_in_profile ts (f.0) (f.1) ≡ true) fs
    → (feed ts c fs).1 ≡ ok tt
feed-accepts ts c [] h = unfold feed in refl
feed-accepts ts c ((n, s) ∷ fs) (h, hs) =
    ap (λ r. r.1) (feed-step ts c n s fs h) ∙ feed-accepts ts ((n, s) ∷ c) fs hs

finished :
    (c c' : Context) (r : Result RunnerError (Unit {0}))
    → (r >>= (λ done. ok c)) ≡ ok c'
    → (r ≡ ok tt) × (c ≡ c')
finished c c' (ok tt) h = (refl, cc)
finished c c' (raise x) h = absurd cc

-- Where the engine is run, it is run on the shapes of this call's feeds, each of which its profile
-- holds, whatever an earlier call has left in the context; so no refused shape is passed over.
pub call-Taken :
    (ts : List Tensor) (c c' : Context) (feeds : List (Text × Shape))
    → Distinct feeds
    → (call ts c feeds).1 ≡ ok c'
    → Taken ts c' feeds
unfolding call
call-Taken ts c c' feeds d h =
    let (e, f) = finished ((feed ts c feeds).0) c' ((feed ts c feeds).1) h in
    subst (λ k. Taken ts k feeds) f (feed-Taken ts c feeds d e)

-- Feeds that the profile holds are never refused.
pub call-accepts :
    (ts : List Tensor) (c : Context) (feeds : List (Text × Shape))
    → All (λ f. is_in_profile ts (f.0) (f.1) ≡ true) feeds
    → (call ts c feeds).1 ≡ ok ((call ts c feeds).0)
unfolding call
call-accepts ts c feeds h = rw (feed-accepts ts c feeds h) refl
