-- ===== src/Listening.antt =====
-- The audio that export/make_ab_audio.py writes to be listened to: the chunked decode of an engine, and the
-- difference of two decodes.
pub mod Laws
use streaming_tts_serving.Base.{
  ℕ, zero, suc, ◌+◌, ◌-◌, ◌*◌, Bool, true, false, min, max, List, [], ◌∷◌, ◌++◌, map, length, slice,
  take, ltb, ◌==◌, if◌then◌else◌, flat_map,
}
use streaming_tts_serving.Base.Result.{Result, ok, raise, ◌>>=◌}

-- what a window keeps
abbrev pub keep : ℕ
keep = 50

-- the context at either side
abbrev pub trim : ℕ
trim = 13

-- the frames that the piece of `a` to `b` decodes: a piece below the engine's 14 frames is begun earlier
unfoldable pub piece : ℕ → ℕ → ℕ → ℕ × ℕ
piece total a b =
    let lo = a - trim in
    let hi = min total (b + trim) in if ltb (hi - lo) 14 then (hi - 14, hi) else (lo, hi)

-- what the engine raises, or `np.concatenate` of no array
pub data DecodeError (E : Type 0) : Type 0 where
  engine : E → DecodeError E
  nothing_to_join : DecodeError E

-- `np.concatenate(out)`
unfoldable pub concatenate : {E S : Type 0} → List (List S) → Result (DecodeError E) (List S)
concatenate [] = raise nothing_to_join
concatenate (w ∷ ws) = ok (w ++ flat_map (λ x. x) ws)

-- The runner refuses what its profile does not hold.
module _ {E F S : Type 0} (runner : List F → Result E (List S)) where
  unfoldable pub decode : List F → Result (DecodeError E) (List S)
  decode z = elim (runner z) [ raise e ↦ raise (engine e) | ok wav ↦ ok wav ]

  -- the audio of the frames `a` to `b`
  unfoldable pub kept : List F → ℕ → ℕ → ℕ → Result (DecodeError E) (List S)
  kept z hop a b = do
    let (lo, hi) = piece (length z) a b
    wav ← decode (slice lo hi z)
    let left = (a - lo) * hop
    ok (slice left (left + (b - a) * hop) wav)

  -- the loop of `chunked_trt`, with fuel
  unfoldable pub decode_from : ℕ → List F → ℕ → ℕ → Result (DecodeError E) (List (List S))
  decode_from zero z hop a = ok []
  decode_from (suc fuel) z hop a =
      let b = min (a + keep) (length z) in
      let rest = decode_from fuel z hop b in
      if ltb a (length z) then (do w ← kept z hop a b; ws ← rest; ok (w ∷ ws)) else ok []

  -- `chunked_trt`. Each round decodes a frame or more, so one for each frame is enough.
  unfoldable pub chunked_trt : List F → ℕ → Result (DecodeError E) (List S)
  chunked_trt z hop = do ws ← decode_from (length z) z hop 0; concatenate ws

-- the three files of one utterance, as long as the shortest decode
unfoldable pub trio : {S : Type 0} → List S → List S → List S → List S × List S × List S
trio ref a32 a16 =
    let n = min (length ref) (min (length a32) (length a16)) in (take n ref, take n a32, take n a16)

unfoldable pub biggest : {D : Type 0} → (D → ℕ) → List D → ℕ
biggest size [] = 0
biggest size (d ∷ ds) = max (size d) (biggest size ds)

-- the largest difference, or 1.0 where there is none
unfoldable pub peak : {D : Type 0} → (D → ℕ) → ℕ → List D → ℕ
peak size unit diff = let p = biggest size diff in if p == 0 then unit else p

-- the difference, amplified; `scaled d p` is `d / p * 0.7`
unfoldable pub amplified : {D E : Type 0} → (D → ℕ) → (D → ℕ → E) → ℕ → List D → List E
amplified size scaled unit diff = map (λ d. scaled d (peak size unit diff)) diff
