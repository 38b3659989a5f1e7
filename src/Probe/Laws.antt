-- ===== src/Probe/Laws.antt =====
-- What the probes report.
use native.Mathlib.Nat.{div-add-mod', mod-lt, mul-pos, zero-mul}
use streaming_tts_serving.Base.{
  ℕ, ◌+◌, ◌-◌, ◌*◌, ◌/◌, ◌≤◌, ◌<◌, ◌≡◌, ◌∙◌, refl, ap, true, List, [], ◌∷◌, ◌++◌, length, take, ltb,
  ◌==◌, if◌then◌else◌, arith, All,
}
use streaming_tts_serving.Probe.{
  distance, largest, touched, lowest, extent, append, extents, widest, receptive_field, total,
  total_distance, encoder_is_causal,
}

-- The samples that a trial touches lie within `reach` samples of the frame's first one.
abbrev pub Within : ℕ → ℕ → List ℕ → Type 0
Within centre_sample reach is =
    All (λ i. (centre_sample ≤ i + reach) × (i ≤ centre_sample + reach)) is

largest-All : (xs : List ℕ) (n : ℕ) → largest xs ≤ n → All (λ x. x ≤ n) xs
unfolding largest
largest-All [] n h = tt
largest-All (x ∷ xs) n h = (omega arith, largest-All xs n (omega arith))

lowest-All : (x : ℕ) (xs : List ℕ) (n : ℕ) → n ≤ lowest x xs → All (λ y. n ≤ y) (x ∷ xs)
unfolding lowest
lowest-All x [] n h = (h, tt)
lowest-All x (y ∷ ys) n h = (omega arith, lowest-All y ys n (omega arith))

both-Within :
    (c reach : ℕ) (is : List ℕ)
    → All (λ y. c - reach ≤ y) is
    → All (λ y. y ≤ c + reach) is
    → Within c reach is
both-Within c reach [] h h' = tt
both-Within c reach (i ∷ is) (h, hs) (h', hs') =
    ((omega arith, omega arith), both-Within c reach is hs hs')

touched-Within :
    (c reach : ℕ) (i : ℕ) (is : List ℕ)
    → c - lowest i is ≤ reach
    → largest (i ∷ is) - c ≤ reach
    → Within c reach (i ∷ is)
touched-Within c reach i is l r =
    both-Within c reach (i ∷ is) (lowest-All i is (c - reach) (omega arith))
      (largest-All (i ∷ is) (c + reach) (omega arith))

-- the samples that a trial touches
abbrev pub reached : List ℕ → List ℕ
reached diff = touched (largest diff) 0 diff

append-Within :
    (c reach : ℕ) (ts : List ℕ) (es : List (ℕ × ℕ))
    → widest (append (extent c ts) es) ≤ reach
    → Within c reach ts × (widest es ≤ reach)
unfolding widest append extent
append-Within c reach [] es h = (tt, h)
append-Within c reach (i ∷ is) es h =
    (touched-Within c reach i is (omega arith) (omega arith), omega arith)

extents-Within :
    (c reach : ℕ) (diffs : List (List ℕ))
    → widest (extents c diffs) ≤ reach
    → All (λ diff. Within c reach (reached diff)) diffs
unfolding extents
extents-Within c reach [] h = tt
extents-Within c reach (diff ∷ diffs) h =
    let (w, rest) = append-Within c reach (reached diff) (extents c diffs) h in
    (w, extents-Within c reach diffs rest)

-- rounding up
ceiling : (w hop : ℕ) → 0 < hop → w ≤ (w + (hop - 1)) / hop * hop
ceiling w hop h =
    let n = w + (hop - 1) in
    omega (arith, div-add-mod' (w + (hop - 1)) hop, mod-lt (w + (hop - 1)) h)

-- No trial of the probe touches a sample farther from the perturbed frame than the receptive field
-- that the probe reports, at either side.
pub receptive_field-Within :
    (hop centre : ℕ) (diffs : List (List ℕ))
    → 0 < hop
    → All
        (λ diff. Within (centre * hop) (receptive_field hop centre diffs * hop) (reached diff))
        diffs
unfolding receptive_field
receptive_field-Within hop centre diffs h =
    extents-Within (centre * hop) ((widest (extents (centre * hop) diffs) + (hop - 1)) / hop * hop)
      diffs (ceiling (widest (extents (centre * hop) diffs)) hop h)

same-distance : (xs : List ℕ) → total_distance xs xs ≡ 0
unfolding total_distance distance
same-distance [] = refl
same-distance (x ∷ xs) = let rest = same-distance xs in omega arith

take-own : (xs ys : List ℕ) → take (length xs) (xs ++ ys) ≡ xs
take-own [] ys = refl
take-own (x ∷ xs) ys = ap (λ t. x ∷ t) (take-own xs ys)

positive : (t n : ℕ) → 0 < n → 0 < (if t == 0 then n else t)
positive t n h = ground arith

below_positive : (per n : ℕ) → 0 < n → ltb (0 * per) n ≡ true
below_positive per n h = let e : 0 * per ≡ 0 = zero-mul per in ground arith

-- An encoder whose outputs for a prefix are left as they are by a continuation is found causal, at
-- any tolerance above zero, where the outputs are measured in a unit and the prefix has a token.
pub encoder_is_causal-prefix :
    (unit tol per : ℕ) (ha rest : List ℕ)
    → 0 < unit
    → 0 < tol
    → 0 < length ha
    → encoder_is_causal unit (tol, per) ha (ha ++ rest) ≡ true
unfolding encoder_is_causal
encoder_is_causal-prefix unit tol per ha rest u p n =
    let e : total_distance ha (take (length ha) (ha ++ rest)) ≡ 0 =
      ap (λ t. total_distance ha t) (take-own ha rest) ∙ same-distance ha in
    let scale : 0 < (if total ha == 0 then length ha * unit else total ha) =
      positive (total ha) (length ha * unit) (mul-pos n u) in
    let wide : 0 < tol * (if total ha == 0 then length ha * unit else total ha) = mul-pos p scale in
    rw e (below_positive per (tol * (if total ha == 0 then length ha * unit else total ha)) wide)
