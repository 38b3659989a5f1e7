-- ===== src/Quality.antt =====
-- The windows and their centres of export/validate_fp16.py.
pub mod Report
use streaming_tts_serving.Base.{
  ℕ, zero, suc, ◌+◌, ◌-◌, ◌*◌, ◌/◌, ◌≤◌, ◌<◌, ◌≡◌, ◌∙◌, ap, ap₂, max, true, List, [], ◌∷◌, length,
  slice, length-slice, ltb, ◌==◌, if◌then◌else◌, arith, inr,
}
use streaming_tts_serving.Chunked.Decode.{Local}

abbrev pub window : ℕ
window = 76

abbrev pub trim : ℕ
trim = 13

-- `wav[pad:-pad]` where the wave is long enough
unfoldable pub valid_centre : {S : Type 0} → List S → ℕ → List S
valid_centre wav hop =
    let pad = trim * hop in
    if ltb (2 * pad) (length wav) then slice pad (length wav - pad) wav else wav

-- `range(start, stop, step)` with a step above zero; a round for each number is enough
unfoldable pub range : ℕ → ℕ → ℕ → ℕ → List ℕ
range zero start stop step = []
range (suc fuel) start stop step =
    let rest = range fuel (start + step) stop step in if ltb start stop then start ∷ rest else []

-- the starts of the windows of an utterance of `total` frames, with the integer division of a number
-- below zero, which is below zero, and so gives the step 1
unfoldable pub starts : ℕ → List ℕ
starts total =
    let stop = max 1 (total - window) in
    let third = (total - window) / 3 in range stop 0 stop (max 1 (if third == 0 then 1 else third))

unfoldable pub windows_at : {F : Type 0} → List F → List ℕ → List (List F)
windows_at z [] = []
windows_at z (s ∷ ss) =
    let rest = windows_at z ss in
    if ltb (length z) (s + window) then rest else slice s (s + window) z ∷ rest

-- the windows of one utterance
unfoldable pub windows : {F : Type 0} → List F → List (List F)
windows z = windows_at z (starts (length z))

-- What is compared of a window is what a decode of the whole utterance has there: where the decoder's
-- receptive field is at most the frames that are trimmed, no sample of the centre is changed by
-- the window's ends.
pub valid_centre_lem :
    {F S : Type 0} (decoder : List F → List S) (hop field s : ℕ) (zs : List F)
    → Local decoder hop field
    → field ≤ 13
    → 0 < hop
    → s + 76 ≤ length zs
    → valid_centre (decoder (slice s (s + 76) zs)) hop
      ≡ slice ((s + 13) * hop) ((s + 63) * hop) (decoder zs)
unfolding valid_centre
valid_centre_lem decoder hop field s zs l f h w =
    let n : length (decoder (slice s (s + 76) zs)) ≡ 76 * hop =
      l.length_lem (slice s (s + 76) zs)
      ∙ ap (λ k. k * hop) (length-slice s (s + 76) zs (omega arith) w ∙ width s) in
    let wide : ltb (2 * (13 * hop)) (length (decoder (slice s (s + 76) zs))) ≡ true =
      ground arith in
    let first : 13 * hop ≡ (s + 13 - s) * hop =
      ap (λ k. k * hop) {x = 13} {y = s + 13 - s} (omega arith) in
    let last : length (decoder (slice s (s + 76) zs)) - 13 * hop ≡ (s + 63 - s) * hop =
      omega (arith, n, ap (λ k. k * hop) {x = 63} {y = s + 63 - s} (omega arith)) in
    rw wide (
      ap₂ (λ i j. slice i j (decoder (slice s (s + 76) zs))) first last
      ∙ l.local_lem zs s (s + 13) (s + 63) (s + 76) (omega arith) (omega arith) (omega arith) w
          (inr (omega arith)) (inr (omega arith)))
  where
    width : (s : ℕ) → s + 76 - s ≡ 76
    width s = omega arith
