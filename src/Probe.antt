-- ===== src/Probe.antt =====
-- The probes: the receptive field of export/probe_receptive_field.py, the step at a seam of
-- streaming/sweep.py, and the causality of an encoder in streaming/incremental.py.
-- The values of a signal are whole numbers of one unit, and differences are taken without their sign.
pub mod Laws
use streaming_tts_serving.Base.{
  ℕ, zero, suc, ◌+◌, ◌-◌, ◌*◌, ◌/◌, ◌%◌, min, max, Bool, true, false, ◌||◌, Option, none, some,
  List, [], ◌∷◌, length, take, slice, get_or, ltb, leb, ◌==◌, if◌then◌else◌, map,
}
use streaming_tts_serving.Percentile.{sorted}
use streaming_tts_serving.Chunked.{round}

unfoldable pub distance : ℕ → ℕ → ℕ
distance x y = (x - y) + (y - x)

unfoldable pub largest : List ℕ → ℕ
largest [] = 0
largest (x ∷ xs) = max x (largest xs)

-- `np.where(db > -60)`, from sample `i` on: more than a thousandth of the peak
unfoldable pub touched : ℕ → ℕ → List ℕ → List ℕ
touched peak i [] = []
touched peak i (d ∷ diff) =
    let rest = touched peak (suc i) diff in if ltb peak (1000 * d) then i ∷ rest else rest

unfoldable pub lowest : ℕ → List ℕ → ℕ
lowest x [] = x
lowest x (y ∷ ys) = min x (lowest y ys)

-- One trial: how many samples its influence reaches to the left and to the right of the frame, or
-- nothing where the decoder's output does not change. A side that it does not reach counts zero.
unfoldable pub extent : ℕ → List ℕ → Option (ℕ × ℕ)
extent centre_sample [] = none
extent centre_sample (i ∷ is) = some (centre_sample - lowest i is, largest (i ∷ is) - centre_sample)

unfoldable pub append : Option (ℕ × ℕ) → List (ℕ × ℕ) → List (ℕ × ℕ)
append none es = es
append (some e) es = e ∷ es

unfoldable pub extents : ℕ → List (List ℕ) → List (ℕ × ℕ)
extents centre_sample [] = []
extents centre_sample (diff ∷ diffs) =
    append (extent centre_sample (touched (largest diff) 0 diff)) (extents centre_sample diffs)

unfoldable pub widest : List (ℕ × ℕ) → ℕ
widest [] = 0
widest ((left, right) ∷ es) = max (max left right) (widest es)

-- `rf`: the extents in frames, rounded up
unfoldable pub receptive_field : ℕ → ℕ → List (List ℕ) → ℕ
receptive_field hop centre diffs = (widest (extents (centre * hop) diffs) + (hop - 1)) / hop

pub record OverlapCost : Type 0 where
  pub decoded_frames : ℕ
  pub wasted_thousandths : ℕ
  pub sufficient : Bool

-- a row of `table`
unfoldable pub overlap_cost : ℕ → ℕ → ℕ → OverlapCost
overlap_cost rf chunk ovl =
    let decoded = chunk + 2 * ovl in
    record {
      decoded_frames = decoded;
      wasted_thousandths = round (1000 * (decoded - chunk)) decoded;
      sufficient = leb rf ovl;
    }

-- `np.abs(np.diff(test))`
unfoldable pub steps : List ℕ → List ℕ
steps [] = []
steps (x ∷ []) = []
steps (x ∷ y ∷ ys) = distance y x ∷ steps (y ∷ ys)

-- twice `np.median`, of which the middle two are averaged where there are two
unfoldable pub double_median : List ℕ → ℕ
double_median xs =
    let n = length xs in
    let s = sorted xs in
    if n % 2 == 0 then get_or s (n / 2 - 1) 0 + get_or s (n / 2) 0 else 2 * get_or s (n / 2) 0

-- `max(worst, peak / local)` of ratios
unfoldable pub larger : ℕ × ℕ → ℕ × ℕ → ℕ × ℕ
larger (a, b) (c, d) = if ltb (a * d) (c * b) then (c, d) else (a, b)

unfoldable pub worst_step : List ℕ → ℕ → List ℕ → ℕ × ℕ → ℕ × ℕ
worst_step d half_window [] worst = worst
worst_step d half_window (s ∷ seams) worst =
    let local = double_median (slice (s - half_window) (min (length d) (s + half_window)) d) in
    worst_step d half_window seams (
      if (leb s 1 || leb (length d - 1) s)
      then worst
      else if leb local 0
      then worst
      else larger worst (2 * largest (slice (s - 2) (s + 2) d), local))

-- the ratio as its two terms
unfoldable pub seam_step_ratio : List ℕ → List ℕ → ℕ → ℕ × ℕ
seam_step_ratio test [] half_window = (1, 1)
seam_step_ratio test (s ∷ seams) half_window =
    worst_step (steps test) half_window (s ∷ seams) (0, 1)

unfoldable pub total : List ℕ → ℕ
total [] = 0
total (x ∷ xs) = x + total xs

unfoldable pub total_distance : List ℕ → List ℕ → ℕ
total_distance [] ys = 0
total_distance (x ∷ xs) [] = 0
total_distance (x ∷ xs) (y ∷ ys) = distance x y + total_distance xs ys

-- `encoder_is_causal` on the outputs for a prefix and for the prefix with its continuation, one
-- number for each token, of which `unit` is 1.0: whether the relative change is below the tolerance.
unfoldable pub encoder_is_causal : ℕ → ℕ × ℕ → List ℕ → List ℕ → Bool
encoder_is_causal unit (tol, per) ha hb =
    let n = length ha in
    let drift = total_distance ha (take n hb) in
    let scale = if total ha == 0 then n * unit else total ha in ltb (drift * per) (tol * scale)
