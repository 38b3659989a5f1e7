-- ===== src/Base/TextLaws.antt =====
-- Lengths and members of the texts that the helpers of `Text` cut out.
use streaming_tts_serving.Base.{
  ℕ, ◌≤◌, ◌≡◌, refl, Bool, true, false, [], ◌∷◌, All, length, arith, ◌∙◌, ◌↔◌, if◌then◌else◌, ◌++◌,
}
use streaming_tts_serving.Base.Text.{
  Text, is_space, drop_while, rstrip, strip, keep, solid, text_eq,
}

pub length-drop_while-le : (p : ℕ → Bool) (s : Text) → length (drop_while p s) ≤ length s
unfolding drop_while
length-drop_while-le p [] = omega arith
length-drop_while-le p (c ∷ s) = ground (arith, length-drop_while-le p s)

module _ (P : ℕ → Type 0) where
  drop_while-All : (p : ℕ → Bool) (s : Text) → All P s → All P (drop_while p s)
  unfolding drop_while
  drop_while-All p [] h = tt
  drop_while-All p (c ∷ s) h = go (p c) (drop_while-All p s h.1)
    where
      go :
          (b : Bool)
          → All P (drop_while p s)
          → All P (elim b [ true ↦ drop_while p s | false ↦ c ∷ s ])
      go true t = t
      go false t = h

  rstrip-All : (s : Text) → All P s → All P (rstrip s)
  unfolding rstrip
  rstrip-All [] h = tt
  rstrip-All (c ∷ s) (hc, h) = go (rstrip s) (rstrip-All s h) (is_space c)
    where
      go :
          (r : Text)
          → All P r
          → (b : Bool) → All P (elim r [ [] ↦ if b then [] else c ∷ [] | d ∷ r' ↦ c ∷ d ∷ r' ])
      go [] _ true = tt
      go [] _ false = (hc, tt)
      go (d ∷ r) hr b = (hc, hr)

  -- `strip` keeps whatever holds of each character.
  pub strip-All : (s : Text) → All P s → All P (strip s)
  unfolding strip
  strip-All s h = rstrip-All (drop_while is_space s) (drop_while-All is_space s h)

pub keep-append : (p : ℕ → Bool) (a b : Text) → keep p (a ++ b) ≡ keep p a ++ keep p b
unfolding keep
keep-append p [] b = refl
keep-append p (c ∷ a) b = ground (arith, keep-append p a b)

pub solid-append : (a b : Text) → solid (a ++ b) ≡ solid a ++ solid b
unfolding solid
solid-append a b = keep-append _ a b

solid-drop_while : (s : Text) → solid (drop_while is_space s) ≡ solid s
unfolding solid keep drop_while
solid-drop_while [] = refl
solid-drop_while (c ∷ s) = ground (arith, solid-drop_while s)

solid-rstrip : (s : Text) → solid (rstrip s) ≡ solid s
unfolding solid keep rstrip
solid-rstrip [] = refl
solid-rstrip (c ∷ s) = ground (arith, solid-rstrip s)

-- `strip` takes nothing that is heard.
pub solid-strip : (s : Text) → solid (strip s) ≡ solid s
unfolding strip
solid-strip s = solid-rstrip (drop_while is_space s) ∙ solid-drop_while s

pub text_eq_iff : (s t : Text) → (text_eq s t ≡ true) ↔ (s ≡ t)
unfolding text_eq
text_eq_iff [] [] = (λ _. refl, λ _. refl)
text_eq_iff [] (c ∷ t) = (λ h. cc, λ h. cc)
text_eq_iff (c ∷ s) [] = (λ h. cc, λ h. cc)
text_eq_iff (c ∷ s) (d ∷ t) = ground (arith, text_eq_iff s t)
