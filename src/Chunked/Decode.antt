-- ===== src/Chunked/Decode.antt =====
-- Chunked decoding against one decode of the whole utterance.
use native.Mathlib.Nat.{add-mul, zero-mul, mul-le-mul_right}
use streaming_tts_serving.Base.{
  ℕ, ◌+◌, ◌-◌, ◌*◌, ◌≤◌, ◌≡◌, ◌∙◌, ◌⊎◌, refl, sym, ap, ap₂, min, Bool, List, [], ◌∷◌, ◌++◌, slice,
  slice-append, slice_all, slice_empty, if_both, length, leb, arith,
}
use streaming_tts_serving.Chunked.{Numeric, Geometry, chunk_bounds, window}
use streaming_tts_serving.Chunked.Bounds.{IsValid, Tiles, chunk_bounds-Tiles}
use streaming_tts_serving.Chunked.Stream.{
  Loop, blend, body_and_tail, blended, round_chunk, chunk_loop, start, stream_latents,
  stream_from_latents, concatenate, synthesize_from_latents, decode_full,
}

-- What the decoder, a convolution network of the model, is relied on for: `hop` samples for each
-- frame, and the samples of frames `a` to `b` are the same in a window that holds `field` more
-- frames at either side, or that ends where the utterance does.
pub record Local {F S : Type 0} (decoder : List F → List S) (hop field : ℕ) : Type 0 where
  pub length_lem : (zs : List F) → length (decoder zs) ≡ length zs * hop
  pub local_lem :
      (zs : List F) (lo a b hi : ℕ)
      → lo ≤ a
      → a ≤ b
      → b ≤ hi
      → hi ≤ length zs
      → (lo ≡ 0) ⊎ (lo + field ≤ a)
      → (hi ≡ length zs) ⊎ (b + field ≤ hi)
      → slice ((a - lo) * hop) ((b - lo) * hop) (decoder (slice lo hi zs))
        ≡ slice (a * hop) (b * hop) (decoder zs)

-- The window of a chunk lies in the utterance, holds the chunk, and has all the context that was
-- asked for but where the utterance ends.
pub window_lem :
    (g : Geometry) (total a b : ℕ)
    → a ≤ b
    → b ≤ total
    → let w = window g total (a, b) in
      (w.0 ≤ a)
      × (b ≤ w.1)
      × (w.1 ≤ total)
      × (w.2 ≡ a - w.0)
      × ((w.0 ≡ 0) ⊎ (w.0 + g.overlap_frames ≡ a))
      × ((w.1 ≡ total) ⊎ (w.1 ≡ b + g.overlap_frames))
unfolding window
window_lem g total a b h h' =
    (omega arith, omega arith, omega arith, refl, omega arith, omega arith)

-- where frame `b` begins in a window from `lo` on, behind the frames from `a` on
pub offset : (lo a b hop : ℕ) → lo ≤ a → a ≤ b → (a - lo) * hop + (b - a) * hop ≡ (b - lo) * hop
offset lo a b hop h h' =
    let e : (a - lo) + (b - a) ≡ b - lo = omega arith in
    sym (add-mul (a - lo) (b - a) hop) ∙ ap (λ t. t * hop) e

module _ (N : Numeric) {F : Type 0} (g : Geometry) (equal_power : Bool)
    (decoder : List F → List N.Sample) (clock : ℕ → ℕ) where
  -- The body of a chunk is the part of the full decode that its frames stand for.
  pub body-decode :
      (field : ℕ) (zs : List F) (a b : ℕ)
      → Local decoder g.hop field
      → field ≤ g.overlap_frames
      → a ≤ b
      → b ≤ length zs
      → (body_and_tail N g equal_power decoder clock zs (a, b)).0
        ≡ slice (a * g.hop) (b * g.hop) (decoder zs)
  unfolding body_and_tail window
  body-decode field zs a b l f h h' =
      ap
        (λ n.
          slice ((a - (a - g.overlap_frames)) * g.hop) n
            (decoder (slice (a - g.overlap_frames) (min (length zs) (b + g.overlap_frames)) zs)))
        (offset (a - g.overlap_frames) a b g.hop (omega arith) h)
      ∙ l.local_lem zs (a - g.overlap_frames) a b (min (length zs) (b + g.overlap_frames))
          (omega arith) h (omega arith) (omega arith) (omega arith) (omega arith)

  -- Without a crossfade the chunk has no tail, and the body is yielded as it is.
  no_tail :
      (zs : List F) (ab : ℕ × ℕ)
      → g.crossfade_samples ≡ 0
      → (body_and_tail N g equal_power decoder clock zs ab).1 ≡ []
  unfolding body_and_tail
  no_tail zs (a, b) x =
      let (lo, hi, left) = window g (length zs) (a, b) in
      let body_end = left * g.hop + (b - a) * g.hop in
      if_both (λ t. t ≡ []) (leb (length zs) b) [] _ refl
        (slice_empty body_end (body_end + g.crossfade_samples) (decoder (slice lo hi zs))
          (omega arith))

  not_blended : (body : List N.Sample) → blended N g equal_power decoder clock [] body ≡ body
  unfolding blended
  not_blended body = unfold blend in refl

  -- With no tail carried over, the chunk holds the samples of its frames.
  round_chunk-samples :
      (field t0 : ℕ) (zs : List F) (s : Loop N.Sample) (a b : ℕ)
      → Local decoder g.hop field
      → field ≤ g.overlap_frames
      → s.carry ≡ []
      → a ≤ b
      → b ≤ length zs
      → (round_chunk N g equal_power decoder clock zs t0 s (a, b)).1.samples
        ≡ slice (a * g.hop) (b * g.hop) (decoder zs)
  unfolding round_chunk
  round_chunk-samples field t0 zs s a b l f c h h' =
      ap
        (λ t.
          blended N g equal_power decoder clock t
            (body_and_tail N g equal_power decoder clock zs (a, b)).0)
        c
      ∙ not_blended _
      ∙ body-decode field zs a b l f h h'

  pub round_chunk-carry :
      (t0 : ℕ) (zs : List F) (s : Loop N.Sample) (ab : ℕ × ℕ)
      → (round_chunk N g equal_power decoder clock zs t0 s ab).0.carry
        ≡ (body_and_tail N g equal_power decoder clock zs ab).1
  unfolding round_chunk
  round_chunk-carry t0 zs s (a, b) = refl

  chunk_loop-decode :
      (field t0 : ℕ) (zs : List F) (s : Loop N.Sample) (a : ℕ) (rest : List (ℕ × ℕ))
      → Local decoder g.hop field
      → field ≤ g.overlap_frames
      → g.crossfade_samples ≡ 0
      → s.carry ≡ []
      → a ≤ length zs
      → Tiles a (length zs) rest
      → concatenate N g equal_power decoder clock
          (chunk_loop N g equal_power decoder clock zs t0 s rest).1
        ≡ slice (a * g.hop) (length zs * g.hop) (decoder zs)
  unfolding chunk_loop concatenate
  chunk_loop-decode field t0 zs s a [] l f x c h t = sym (
      slice_empty (a * g.hop) (length zs * g.hop) (decoder zs)
        (mul-le-mul_right g.hop (omega arith)))
  chunk_loop-decode field t0 zs s a ((x, y) ∷ rest) l f xf c h (e, lt, le, t) =
      let u = (round_chunk N g equal_power decoder clock zs t0 s (x, y)).0 in
      let le' : x ≤ y = omega arith in
      ap₂ (λ p q. p ++ q) (round_chunk-samples field t0 zs s x y l f c le' le)
        (chunk_loop-decode field t0 zs u y rest l f xf
          (round_chunk-carry t0 zs s (x, y) ∙ no_tail zs (x, y) xf) le t)
      ∙ ap
          (λ n.
            slice (n * g.hop) (y * g.hop) (decoder zs)
            ++ slice (y * g.hop) (length zs * g.hop) (decoder zs))
          e
      ∙ slice-append (a * g.hop) (y * g.hop) (length zs * g.hop) (decoder zs)
          (mul-le-mul_right g.hop (omega arith)) (mul-le-mul_right g.hop le)

  -- Streaming without a crossfade gives the very samples of a single decode of the utterance, where
  -- the context at either side is at least the decoder's receptive field: the chunks join with no
  -- seam, whatever their sizes.
  pub synthesize_from_latents-decode_full :
      (field t0 : ℕ) (zs : List F)
      → IsValid g
      → Local decoder g.hop field
      → field ≤ g.overlap_frames
      → g.crossfade_samples ≡ 0
      → (synthesize_from_latents N g equal_power decoder clock zs t0).0
        ≡ decode_full N g equal_power decoder clock zs
  unfolding synthesize_from_latents stream_from_latents stream_latents decode_full start
  synthesize_from_latents-decode_full field t0 zs v l f xf =
      chunk_loop-decode field t0 zs _ 0 (chunk_bounds g (length zs)) l f xf refl (omega arith)
        (chunk_bounds-Tiles g (length zs) v)
      ∙ ap (λ n. slice n (length zs * g.hop) (decoder zs)) (zero-mul g.hop)
      ∙ slice_all (length zs * g.hop) (decoder zs) (omega (arith, l.length_lem zs))
