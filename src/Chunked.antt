-- ===== src/Chunked.antt =====
-- `ChunkedSynthesizer` of streaming/chunked.py: the geometry that `__init__` derives, the chunk loop
-- of `_stream_latents` and what is built on it.
pub mod Stream
pub mod Bounds
pub mod Decode
pub mod Tail
pub mod Crossfade
pub mod Stats
pub mod Capture
use streaming_tts_serving.Base.{
  ℕ, zero, suc, ◌+◌, ◌-◌, ◌*◌, ◌/◌, ◌%◌, min, max, Bool, true, false, not, Option, none, some, List,
  [], ◌∷◌, ◌++◌, flat_map, map, length, take, drop, ltb, leb, ◌==◌, if◌then◌else◌, replicate,
}
use streaming_tts_serving.Base.Result.{Result, ok, raise}
use streaming_tts_serving.Base.Int.{ℤ}
use streaming_tts_serving.Audio.{Bytes, le16}

-- Lengths of time in the configuration are whole microseconds. `growth size` is
-- `int(size * growth)`.
pub record ChunkConfig : Type 0 where
  pub first_chunk_us : ℕ
  pub max_chunk_us : ℕ
  pub growth : ℕ → ℕ
  pub overlap_frames : ℕ
  pub crossfade_us : ℕ
  pub equal_power : Bool

-- What `__init__` reads of `model.config`.
pub record ModelConfig : Type 0 where
  pub sampling_rate : ℕ
  pub upsample_rates : List ℕ

-- `numpy` as the synthesizer uses it: the arithmetic of float32 samples and of fade weights, and the
-- steps from a sample to a 16-bit number.
pub record Numeric : Type 1 where
  pub Sample : Type 0
  pub Weight : Type 0
  pub times : Sample → Weight → Sample
  pub plus : Sample → Sample → Sample
  pub zero_weight : Weight
  pub one_weight : Weight
  pub half_pi : Weight
  pub linspace : Weight → Weight → ℕ → List Weight
  pub minus : Weight → Weight → Weight
  pub cos : Weight → Weight
  pub sin : Weight → Weight
  pub clip : Sample → Sample
  pub to_int16 : Sample → ℤ

pub data InitError : Type 0 where
  no_hop_length : InitError

-- `for r in upsample_rates: hop *= int(r)`
unfoldable pub hop_length : ℕ → List ℕ → ℕ
hop_length hop [] = hop
hop_length hop (r ∷ rs) = hop_length (hop * r) rs

-- `round(n / d)`: halves go to the even neighbour
unfoldable pub round : ℕ → ℕ → ℕ
round n d =
    let q = n / d in
    let r = n % d in
    if ltb (2 * r) d then q else if ltb d (2 * r) then q + 1 else if q % 2 == 0 then q else q + 1

-- What `__init__` keeps for the stream.
pub record Geometry : Type 0 where
  pub sr : ℕ
  pub hop : ℕ
  pub first_frames : ℕ
  pub max_frames : ℕ
  pub crossfade_samples : ℕ
  pub overlap_frames : ℕ
  pub growth : ℕ → ℕ

-- The fields that `__init__` derives.
unfoldable pub geometry : ModelConfig → ChunkConfig → Geometry
geometry conf cfg =
    let hop = hop_length 1 conf.upsample_rates in
    let sr = conf.sampling_rate in
    let first = max 1 (round (cfg.first_chunk_us * sr) (1000000 * hop)) in
    let xf = cfg.crossfade_us * sr / 1000000 in
    let max_xf = cfg.overlap_frames * hop in
    record {
      sr = sr;
      hop = hop;
      first_frames = first;
      max_frames = max first (round (cfg.max_chunk_us * sr) (1000000 * hop));
      crossfade_samples = if ltb max_xf xf then max_xf else xf;
      overlap_frames = cfg.overlap_frames;
      growth = cfg.growth;
    }

-- `__init__`, up to the fade curves
unfoldable pub derive : ModelConfig → ChunkConfig → Result InitError Geometry
derive conf cfg =
    if leb (hop_length 1 conf.upsample_rates) 1 then raise no_hop_length else ok (geometry conf cfg)

-- `size = min(self.max_frames, max(size + 1, int(size * cfg.growth)))`
unfoldable pub next_size : Geometry → ℕ → ℕ
next_size g size = min g.max_frames (max (size + 1) (g.growth size))

-- `while a < total_frames`, with fuel
unfoldable pub bounds : Geometry → ℕ → ℕ → ℕ → ℕ → List (ℕ × ℕ)
bounds g zero total a size = []
bounds g (suc fuel) total a size = elim (ltb a total) [
  | true ↦ let b = min (a + size) total in (a, b) ∷ bounds g fuel total b (next_size g size)
  | false ↦ []
]

-- The bounds of an utterance. Each chunk has a frame, so a round for each frame is enough.
unfoldable pub chunk_bounds : Geometry → ℕ → List (ℕ × ℕ)
chunk_bounds g total = bounds g total total 0 g.first_frames

-- the loop of `seam_positions`, with fuel
unfoldable pub seams : Geometry → ℕ → ℕ → ℕ → ℕ → List ℕ
seams g zero total a size = []
seams g (suc fuel) total a size = elim (ltb a total) [
  | true ↦
      let b = min (a + size) total in
      let rest = seams g fuel total b (next_size g size) in
      if ltb b total then (b * g.hop) ∷ rest else rest
  | false ↦ []
]

unfoldable pub seam_positions : Geometry → ℕ → List ℕ
seam_positions g total = seams g total total 0 g.first_frames

-- The frames that chunk `(a, b)` decodes, and the context at its left that it really got.
unfoldable pub window : Geometry → ℕ → ℕ × ℕ → ℕ × ℕ × ℕ
window g total (a, b) =
    let lo = a - g.overlap_frames in (lo, min total (b + g.overlap_frames), a - lo)
