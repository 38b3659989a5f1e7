-- ===== src/Chunked/Stats.antt =====
-- The chunks' numbers and flags, and the statistics of a stream.
use streaming_tts_serving.Base.{
  ℕ, ◌+◌, ◌-◌, ◌≤◌, ◌≡◌, refl, Bool, true, false, List, [], ◌∷◌, length, length-append, arith,
}
use streaming_tts_serving.Chunked.{Numeric, Geometry, chunk_bounds, window}
use streaming_tts_serving.Chunked.Bounds.{IsValid, Tiles, chunk_bounds-Tiles}
use streaming_tts_serving.Chunked.Stream.{
  AudioChunk, Loop, round_chunk, chunk_loop, start, finish, stream_latents,
}

module _ {S : Type 0} where
  -- Chunks numbered from `i` on; the last of them, and no other, is final.
  abbrev pub Numbered : ℕ → List (AudioChunk S) → Type 0
  Numbered i [] = Unit
  Numbered i (c ∷ []) = (c.index ≡ i) × (c.is_final ≡ true)
  Numbered i (c ∷ d ∷ cs) = (c.index ≡ i) × (c.is_final ≡ false) × Numbered (i + 1) (d ∷ cs)

  -- sums over the chunks
  unfoldable pub kept : List (AudioChunk S) → ℕ
  kept [] = 0
  kept (c ∷ cs) = c.frames_kept + kept cs

  unfoldable pub decoded : List (AudioChunk S) → ℕ
  decoded [] = 0
  decoded (c ∷ cs) = c.frames_decoded + decoded cs

  unfoldable pub sampled : List (AudioChunk S) → ℕ
  sampled [] = 0
  sampled (c ∷ cs) = c.audio_samples + sampled cs

module _ (N : Numeric) {F : Type 0} (g : Geometry) (equal_power : Bool)
    (decoder : List F → List N.Sample) (clock : ℕ → ℕ) where
  chunk_loop-Numbered :
      (zs : List F) (t0 : ℕ) (s : Loop N.Sample) (a : ℕ) (rest : List (ℕ × ℕ))
      → Tiles a (length zs) rest
      → Numbered s.index (chunk_loop N g equal_power decoder clock zs t0 s rest).1
  unfolding chunk_loop round_chunk
  chunk_loop-Numbered zs t0 s a [] t = tt
  chunk_loop-Numbered zs t0 s a ((x, y) ∷ []) (e, lt, le, t) = (refl, ground arith)
  chunk_loop-Numbered zs t0 s a ((x, y) ∷ (x', y') ∷ rest) (e, lt, le, t) = (
    refl,
    ground arith,
    chunk_loop-Numbered zs t0 (round_chunk N g equal_power decoder clock zs t0 s (x, y)).0 y
        ((x', y') ∷ rest) t,
  )

  -- The chunks of a stream are numbered from 0 on, and the last of them alone is marked final.
  pub stream_latents-Numbered :
      (zs : List F) (t0 t_front : ℕ)
      → IsValid g
      → Numbered 0 (stream_latents N g equal_power decoder clock zs t0 t_front).0
  unfolding stream_latents start
  stream_latents-Numbered zs t0 t_front v =
      chunk_loop-Numbered zs t0 _ 0 (chunk_bounds g (length zs))
        (chunk_bounds-Tiles g (length zs) v)

  -- What the rounds from a state on add to the counts.
  pub record Counts (s u : Loop N.Sample) (cs : List (AudioChunk N.Sample)) : Type 0 where
    pub chunks : u.stats.chunks ≡ s.stats.chunks + length cs
    pub decode : length u.stats.decode ≡ length s.stats.decode + length cs
    pub sampled_lem : u.stats.audio_samples ≡ s.stats.audio_samples + sampled cs
    pub decoded_lem : u.decoded_frames ≡ s.decoded_frames + decoded cs
    pub enough : kept cs ≤ decoded cs

  chunk_loop-Counts :
      (zs : List F) (t0 : ℕ) (s : Loop N.Sample) (a : ℕ) (rest : List (ℕ × ℕ))
      → Tiles a (length zs) rest
      → Counts s
          (chunk_loop N g equal_power decoder clock zs t0 s rest).0
          (chunk_loop N g equal_power decoder clock zs t0 s rest).1
        × (kept (chunk_loop N g equal_power decoder clock zs t0 s rest).1 + a ≡ length zs)
  unfolding chunk_loop round_chunk kept decoded sampled window
  chunk_loop-Counts zs t0 s a [] t = (
    record {
      chunks = omega arith;
      decode = omega arith;
      sampled_lem = omega arith;
      decoded_lem = omega arith;
      enough = omega arith;
    },
    omega arith,
  )
  chunk_loop-Counts zs t0 s a ((x, y) ∷ rest) (e, lt, le, t) =
      let u = (round_chunk N g equal_power decoder clock zs t0 s (x, y)).0 in
      let (h, k) = chunk_loop-Counts zs t0 u y rest t in
      (
        record {
          chunks = omega (arith, h.chunks);
          decode = omega (
            arith,
            h.decode,
            length-append s.stats.decode ((clock (s.tick + 1) - clock s.tick) ∷ []),
          );
          sampled_lem = omega (arith, h.sampled_lem);
          decoded_lem = omega (arith, h.decoded_lem);
          enough = omega (arith, h.enough);
        },
        omega (arith, k),
      )

  -- The statistics add up: a chunk, a decode time and the samples for each chunk yielded; the chunks
  -- keep each frame of the utterance once; and the wasted frames are those decoded beyond them, of
  -- which there cannot be fewer than none.
  pub stream_latents-stats :
      (zs : List F) (t0 t_front : ℕ)
      → IsValid g
      → let out = stream_latents N g equal_power decoder clock zs t0 t_front in
        (out.1.chunks ≡ length out.0)
        × (length out.1.decode ≡ length out.0)
        × (out.1.audio_samples ≡ sampled out.0)
        × (out.1.decoded_frames ≡ decoded out.0)
        × (kept out.0 ≡ length zs)
        × (out.1.wasted_frames + length zs ≡ out.1.decoded_frames)
  unfolding stream_latents start finish
  stream_latents-stats zs t0 t_front v =
      let (h, k) =
        chunk_loop-Counts zs t0 (start N g equal_power decoder clock (t_front - t0)) 0
          (chunk_bounds g (length zs)) (chunk_bounds-Tiles g (length zs) v) in
      (
        omega (arith, h.chunks),
        omega (arith, h.decode),
        omega (arith, h.sampled_lem),
        omega (arith, h.decoded_lem),
        omega (arith, k),
        omega (arith, k, h.enough, h.decoded_lem),
      )
