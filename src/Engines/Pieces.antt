-- ===== src/Engines/Pieces.antt =====
-- The FP16 quality check of export/build_trt.py, which decodes an utterance in pieces that the engine takes.
use streaming_tts_serving.Base.{
  ℕ, zero, suc, ◌+◌, ◌-◌, min, List, [], ◌∷◌, take, slice, length, ltb, ◌==◌, if◌then◌else◌,
}
use streaming_tts_serving.Base.Result.{Result, ok, ◌>>=◌}
use streaming_tts_serving.Listening.{DecodeError, concatenate, decode}

-- A piece that is too short for the engine is replaced by the last 14 frames of the utterance.
unfoldable pub piece : ℕ → ℕ → ℕ × ℕ
piece total s = let e = min (s + 76) total in if ltb (e - s) 14 then (total - 14, total) else (s, e)

-- `for s in range(0, T, 76)`, with fuel
unfoldable pub pieces : ℕ → ℕ → ℕ → List (ℕ × ℕ)
pieces zero total s = []
pieces (suc fuel) total s =
    let rest = pieces fuel total (s + 76) in if ltb s total then piece total s ∷ rest else []

-- where the last piece begins, for `r` frames behind the whole pieces
abbrev pub tail_start : ℕ → ℕ → ℕ
tail_start total r = if r == 0 then total else if ltb r 14 then total - 14 else total - r

-- The audio that is compared: `reference` is the decoder of PyTorch, and the engine refuses what its profile
-- does not hold.
module _ {E F S : Type 0} (reference : List F → List S) (runner : List F → Result E (List S)) where
  -- `outs`
  unfoldable pub outs : List F → List (ℕ × ℕ) → Result (DecodeError E) (List (List S))
  outs z [] = ok []
  outs z ((lo, hi) ∷ ps) = do wav ← decode runner (slice lo hi z); ws ← outs z ps; ok (wav ∷ ws)

  -- `ref` and `test`. A round for each frame is enough.
  unfoldable pub decode_pieces : List F → Result (DecodeError E) (List S × List S)
  decode_pieces z = do
    ws ← outs z (pieces (length z) (length z) 0)
    test ← concatenate ws
    ok (reference z, take (length (reference z)) test)

-- `q` whole pieces from `s` on
abbrev pub whole : ℕ → ℕ → List (ℕ × ℕ)
whole s zero = []
whole s (suc q) = (s, s + 76) ∷ whole (s + 76) q

-- a rest of `r` frames
abbrev pub rest_of : ℕ → ℕ → List (ℕ × ℕ)
rest_of total r = if r == 0 then [] else (tail_start total r, total) ∷ []

abbrev pub frames_of : List (ℕ × ℕ) → ℕ
frames_of [] = 0
frames_of ((lo, hi) ∷ ps) = (hi - lo) + frames_of ps

-- the frames of the last piece that a piece before it has decoded already
abbrev pub repeated : ℕ → ℕ → ℕ
repeated total r = if r == 0 then 0 else if ltb r 14 then min 14 total - r else 0
