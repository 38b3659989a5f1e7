-- ===== src/Chunked/Stream.antt =====
-- `_fade_curves`, `_stream_latents` and its callers, and `capture_latents` of streaming/chunked.py.
-- A generator is run to its end. `clock n` is the n-th reading of `time.perf_counter` since the
-- loop began.
use streaming_tts_serving.Base.{
  ℕ, ◌+◌, ◌-◌, ◌*◌, Bool, List, [], ◌∷◌, ◌++◌, map, length, slice, leb, ◌==◌, if◌then◌else◌,
}
use streaming_tts_serving.Audio.{Bytes, le16}
use streaming_tts_serving.Chunked.{Numeric, Geometry, chunk_bounds, window}

-- `AudioChunk`; `audio_seconds` is in samples, `sr` of them to a second.
pub record AudioChunk (S : Type 0) : Type 0 where
  pub index : ℕ
  pub pcm : Bytes
  pub audio_samples : ℕ
  pub elapsed : ℕ
  pub decode : ℕ
  pub is_final : Bool
  pub frames_decoded : ℕ
  pub frames_kept : ℕ
  pub samples : List S

-- `StreamStats`; the wasted fraction is kept as its numerator, over the frames decoded.
pub record StreamStats : Type 0 where
  pub ttfa : ℕ
  pub frontend : ℕ
  pub total : ℕ
  pub audio_samples : ℕ
  pub chunks : ℕ
  pub decode : List ℕ
  pub decoded_frames : ℕ
  pub wasted_frames : ℕ

-- The variables of the chunk loop. A missing carry is an empty one.
pub record Loop (S : Type 0) : Type 0 where
  pub index : ℕ
  pub carry : List S
  pub decoded_frames : ℕ
  pub tick : ℕ
  pub stats : StreamStats

module _ (N : Numeric) where
  open N use {
    Sample, Weight, times, plus, zero_weight, one_weight, half_pi, linspace, minus, cos, sin, clip,
    to_int16,
  }

  -- `_fade_curves`: the curve that fades out, and the one that fades in
  unfoldable pub fade_curves : ℕ → Bool → List Weight × List Weight
  fade_curves n equal_power =
      if leb n 0
      then ([], [])
      else if equal_power
      then (let theta = linspace zero_weight half_pi n in (map cos theta, map sin theta))
      else (let t = linspace zero_weight one_weight n in (map (minus one_weight) t, t))

  -- `body[:n] = carry[:n] * fade_out[:n] + body[:n] * fade_in[:n]`, for the shorter of the two
  unfoldable pub blend : List Sample → List Weight → List Weight → List Sample → List Sample
  blend (c ∷ cs) (o ∷ os) (i ∷ is) (b ∷ bs) = plus (times c o) (times b i) ∷ blend cs os is bs
  blend cs os is body = body

  -- `(np.clip(out, -1.0, 1.0) * 32767.0).astype("<i2").tobytes()`
  unfoldable pub to_pcm : List Sample → Bytes
  to_pcm [] = []
  to_pcm (x ∷ xs) = le16 (to_int16 (clip x)) ++ to_pcm xs

  module _ {F : Type 0} (g : Geometry) (equal_power : Bool) (decoder : List F → List Sample)
      (clock : ℕ → ℕ) where
    -- the audio of a chunk before the blend, and the tail that the next chunk blends
    unfoldable pub body_and_tail : List F → ℕ × ℕ → List Sample × List Sample
    body_and_tail latents (a, b) =
        let (lo, hi, left) = window g (length latents) (a, b) in
        let audio = decoder (slice lo hi latents) in
        let start = left * g.hop in
        let body_end = start + (b - a) * g.hop in
        (
          slice start body_end audio,
          (if leb (length latents) b
              then []
              else slice body_end (body_end + g.crossfade_samples) audio),
        )

    unfoldable pub blended : List Sample → List Sample → List Sample
    blended carry body =
        let (out, into) = fade_curves g.crossfade_samples equal_power in blend carry out into body

    -- One round of the loop, at clock readings `tick`, `tick + 1` and `tick + 2`.
    unfoldable pub round_chunk : List F → ℕ → Loop Sample → ℕ × ℕ → Loop Sample × AudioChunk Sample
    round_chunk latents t0 s (a, b) =
        let (body, tail) = body_and_tail latents (a, b) in
        let (lo, hi, left) = window g (length latents) (a, b) in
        let out = blended s.carry body in
        let dec = clock (s.tick + 1) - clock s.tick in
        let elapsed = clock (s.tick + 2) - t0 in
        (
          record {
            index = s.index + 1;
            carry = tail;
            decoded_frames = s.decoded_frames + (hi - lo);
            tick = s.tick + 3;
            stats = record (s.stats) {
              ttfa = if s.index == 0 then elapsed else s.stats.ttfa;
              chunks = s.stats.chunks + 1;
              audio_samples = s.stats.audio_samples + length out;
              decode = s.stats.decode ++ dec ∷ [];
            };
          },
          record {
            index = s.index;
            pcm = to_pcm out;
            audio_samples = length out;
            elapsed = elapsed;
            decode = dec;
            is_final = leb (length latents) b;
            frames_decoded = hi - lo;
            frames_kept = b - a;
            samples = out;
          },
        )

    unfoldable pub chunk_loop :
        List F → ℕ → Loop Sample → List (ℕ × ℕ) → Loop Sample × List (AudioChunk Sample)
    chunk_loop latents t0 s [] = (s, [])
    chunk_loop latents t0 s (ab ∷ rest) =
        let (t, c) = round_chunk latents t0 s ab in
        let (u, cs) = chunk_loop latents t0 t rest in (u, c ∷ cs)

    -- The loop's variables before its first round.
    unfoldable pub start : ℕ → Loop Sample
    start frontend = record {
      index = 0;
      carry = [];
      decoded_frames = 0;
      tick = 0;
      stats = record {
        ttfa = 0;
        frontend = frontend;
        total = 0;
        audio_samples = 0;
        chunks = 0;
        decode = [];
        decoded_frames = 0;
        wasted_frames = 0;
      };
    }

    -- the statistics at the end; a fraction of no decoded frames is 0
    unfoldable pub finish : List F → ℕ → Loop Sample → StreamStats
    finish latents t0 s = record (s.stats) {
      total = clock s.tick - t0;
      decoded_frames = s.decoded_frames;
      wasted_frames = s.decoded_frames - length latents;
    }

    -- `_stream_latents`
    unfoldable pub stream_latents : List F → ℕ → ℕ → List (AudioChunk Sample) × StreamStats
    stream_latents latents t0 t_front =
        let (s, chunks) =
          chunk_loop latents t0 (start (t_front - t0)) (chunk_bounds g (length latents)) in
        (chunks, finish latents t0 s)

    -- `stream`: the front half runs between the two clock readings
    unfoldable pub stream :
        {T : Type 0} → (T → List F) → T → ℕ → ℕ → List (AudioChunk Sample) × StreamStats
    stream latents_of text t0 t_front = stream_latents (latents_of text) t0 t_front

    -- `stream_from_latents`
    unfoldable pub stream_from_latents : List F → ℕ → List (AudioChunk Sample) × StreamStats
    stream_from_latents latents t0 = stream_latents latents t0 t0

    -- `np.concatenate`
    unfoldable pub concatenate : List (AudioChunk Sample) → List Sample
    concatenate [] = []
    concatenate (c ∷ cs) = c.samples ++ concatenate cs

    -- `synthesize_from_latents`
    unfoldable pub synthesize_from_latents : List F → ℕ → List Sample × StreamStats
    synthesize_from_latents latents t0 =
        let (chunks, stats) = stream_from_latents latents t0 in (concatenate chunks, stats)

    -- `synthesize`
    unfoldable pub synthesize : {T : Type 0} → (T → List F) → T → ℕ → ℕ → List Sample × StreamStats
    synthesize latents_of text t0 t_front =
        let (chunks, stats) = stream latents_of text t0 t_front in (concatenate chunks, stats)

    -- `decode_full`
    unfoldable pub decode_full : List F → List Sample
    decode_full latents = decoder latents
