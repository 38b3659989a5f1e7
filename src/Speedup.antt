-- ===== src/Speedup.antt =====
-- The chunked decodes that export/measure_speedup.py times: fixed chunks with context at either side.
pub mod Laws
pub mod Cost
pub mod Rounding
use streaming_tts_serving.Base.{
  ℕ, zero, suc, ◌+◌, ◌-◌, min, max, Bool, true, false, List, [], ◌∷◌, length, slice, ltb,
  if◌then◌else◌,
}

abbrev pub chunk : ℕ
chunk = 50

abbrev pub overlap : ℕ
overlap = 13

-- the chunks with their context, as frames from `lo` up to `hi`: the loop of `chunked_decode_torch`
unfoldable pub torch_windows : ℕ → ℕ → ℕ → List (ℕ × ℕ)
torch_windows zero total a = []
torch_windows (suc fuel) total a =
    let b = min (a + chunk) total in
    let rest = torch_windows fuel total b in
    if ltb a total then (max 0 (a - overlap), min total (b + overlap)) ∷ rest else []

-- a window with fewer frames than the engine takes is begun earlier
unfoldable pub widened : ℕ → ℕ × ℕ → ℕ × ℕ
widened min_window (lo, hi) =
    if ltb (hi - lo) min_window then (max 0 (hi - min_window), hi) else (lo, hi)

-- the loop of `chunked_decode_trt`
unfoldable pub trt_windows : ℕ → ℕ → ℕ → ℕ → List (ℕ × ℕ)
trt_windows min_window zero total a = []
trt_windows min_window (suc fuel) total a =
    let b = min (a + chunk) total in
    let rest = trt_windows min_window fuel total b in
    if ltb a total
    then widened min_window (max 0 (a - overlap), min total (b + overlap)) ∷ rest
    else []

unfoldable pub samples : {F S : Type 0} → (List F → List S) → List F → List (ℕ × ℕ) → ℕ
samples decoder latents [] = 0
samples decoder latents ((lo, hi) ∷ ws) =
    length (decoder (slice lo hi latents)) + samples decoder latents ws

-- A round for each frame is enough, since each chunk has one.
unfoldable pub chunked_decode_torch : {F S : Type 0} → (List F → List S) → List F → ℕ
chunked_decode_torch decoder latents =
    samples decoder latents (torch_windows (length latents) (length latents) 0)

-- the windows that the runner is called with
unfoldable pub chunked_decode_trt : ℕ → ℕ → List (ℕ × ℕ)
chunked_decode_trt min_window total = trt_windows min_window total total 0
