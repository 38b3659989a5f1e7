-- ===== src/Chunked/Crossfade.antt =====
-- Chunked decoding with a linear crossfade against one decode of the whole utterance.
use mathlib.Core.Path.{subst}
use native.Mathlib.Nat.{zero-mul, mul-le-mul_right}
use streaming_tts_serving.Base.{
  ℕ, zero, suc, ◌+◌, ◌-◌, ◌*◌, ◌≤◌, ◌<◌, ◌≡◌, ◌∙◌, ◌⊎◌, inl, inr, refl, sym, ap, ap₂, min, false,
  List, [], ◌∷◌, ◌++◌, map, take, drop, slice, slice-append, slice_all, slice_empty, length, leb,
  Bool-cases, arith,
}
use streaming_tts_serving.Chunked.{Numeric, Geometry, chunk_bounds, window}
use streaming_tts_serving.Chunked.Bounds.{IsValid, Tiles, chunk_bounds-Tiles}
use streaming_tts_serving.Chunked.Decode.{Local, offset, body-decode, round_chunk-carry}
use streaming_tts_serving.Chunked.Tail.{window-tail}
use streaming_tts_serving.Chunked.Stream.{
  Loop, fade_curves, blend, body_and_tail, blended, round_chunk, chunk_loop, start, stream_latents,
  stream_from_latents, concatenate, synthesize_from_latents, decode_full,
}

-- Exact arithmetic: a sample that fades out while it fades in is itself.
pub record ExactFade (N : Numeric) : Type 0 where
  pub exact :
      (x : N.Sample) (w : N.Weight) → N.plus (N.times x (N.minus N.one_weight w)) (N.times x w) ≡ x

-- The lists have the same elements as far as both go.
Agree : {A : Type 0} → List A → List A → Type 0
Agree [] ys = Unit
Agree (x ∷ xs) [] = Unit
Agree (x ∷ xs) (y ∷ ys) = (x ≡ y) × Agree xs ys

take-Agree : {A : Type 0} (n m : ℕ) (xs : List A) → Agree (take n xs) (take m xs)
unfolding Agree
take-Agree zero m xs = tt
take-Agree (suc n) m [] = tt
take-Agree (suc n) zero (x ∷ xs) = tt
take-Agree (suc n) (suc m) (x ∷ xs) = (refl, take-Agree n m xs)

module _ (N : Numeric) (E : ExactFade N) where
  blend-Agree :
      (cs : List N.Sample) (ts : List N.Weight) (bs : List N.Sample)
      → Agree cs bs
      → blend N cs (map (N.minus N.one_weight) ts) ts bs ≡ bs
  unfolding blend Agree
  blend-Agree [] ts bs h = refl
  blend-Agree (c ∷ cs) [] bs h = refl
  blend-Agree (c ∷ cs) (t ∷ ts) [] h = refl
  blend-Agree (c ∷ cs) (t ∷ ts) (b ∷ bs) (h, hs) =
      ap₂ (◌∷◌)
        (ap (λ x. N.plus (N.times c (N.minus N.one_weight t)) (N.times x t)) (sym h)
          ∙ E.exact c t
          ∙ h)
        (blend-Agree cs ts bs hs)

  module _ {F : Type 0} (g : Geometry) (decoder : List F → List N.Sample) (clock : ℕ → ℕ) where
    blended-Agree :
        (carry body : List N.Sample)
        → Agree carry body
        → blended N g false decoder clock carry body ≡ body
    unfolding blended fade_curves
    blended-Agree carry body h = elim (Bool-cases (leb g.crossfade_samples 0)) [
      | inl e ↦ rw e (blend-Agree carry [] body h)
      | inr e ↦
          rw e
            (blend-Agree carry (N.linspace N.zero_weight N.one_weight g.crossfade_samples) body h)
    ]

    -- what is carried over is how the full decode goes on
    abbrev Carried : List F → ℕ → List N.Sample → Type 0
    Carried zs a carry = (n : ℕ) × (carry ≡ take n (drop (a * g.hop) (decoder zs)))

    tail-Carried :
        (field k : ℕ) (zs : List F) (a b : ℕ)
        → Local decoder g.hop field
        → g.crossfade_samples ≤ k * g.hop
        → k + field ≤ g.overlap_frames
        → a ≤ b
        → b ≤ length zs
        → Carried zs b (body_and_tail N g false decoder clock zs (a, b)).1
    unfolding body_and_tail window
    tail-Carried field k zs a b l x f h h' = elim (Bool-cases (leb (length zs) b)) [
      | inl e ↦ rw e (0, refl)
      | inr e ↦ rw e (
        g.crossfade_samples,
        cut (offset lo a b g.hop (omega arith) h)
            ∙ window-tail decoder g.hop field zs lo b (min (length zs) (b + k)) hi
                g.crossfade_samples l (omega arith) (omega arith) (omega arith) (omega arith)
                (omega arith) (omega arith) (reach (ground arith)),
      )
    ]
      where
        lo : ℕ
        lo = a - g.overlap_frames

        hi : ℕ
        hi = min (length zs) (b + g.overlap_frames)

        xf : ℕ
        xf = g.crossfade_samples

        audio : List N.Sample
        audio = decoder (slice lo hi zs)

        cut :
            (a - lo) * g.hop + (b - a) * g.hop ≡ (b - lo) * g.hop
            → slice
                ((a - lo) * g.hop + (b - a) * g.hop)
                ((a - lo) * g.hop + (b - a) * g.hop + xf)
                audio
              ≡ take xf (drop ((b - lo) * g.hop) audio)
        cut e =
            let n : (b - lo) * g.hop + xf - (b - lo) * g.hop ≡ xf = omega arith in
            ap (λ s. slice s (s + xf) audio) e ∙ ap (λ t. take t (drop ((b - lo) * g.hop) audio)) n

        reach :
            b < length zs
            → (xf ≤ (min (length zs) (b + k) - b) * g.hop)
              ⊎ ((min (length zs) (b + k) ≡ length zs) × (hi ≡ min (length zs) (b + k)))
        reach more = elim (Bool-cases (leb (b + k) (length zs))) [
          | inl e ↦
              let n : min (length zs) (b + k) - b ≡ k = ground arith in
              inl (omega (arith, ap (λ t. t * g.hop) n))
          | inr e ↦ inr (ground arith, ground arith)
        ]

    round_chunk-Carried :
        (field t0 : ℕ) (zs : List F) (s : Loop N.Sample) (a b : ℕ)
        → Local decoder g.hop field
        → field ≤ g.overlap_frames
        → Carried zs a s.carry
        → a ≤ b
        → b ≤ length zs
        → (round_chunk N g false decoder clock zs t0 s (a, b)).1.samples
          ≡ slice (a * g.hop) (b * g.hop) (decoder zs)
    unfolding round_chunk
    round_chunk-Carried field t0 zs s a b l f (n, c) h h' =
        let body = body-decode N g false decoder clock field zs a b l f h h' in
        let d = drop (a * g.hop) (decoder zs) in
        let same : Agree s.carry (body_and_tail N g false decoder clock zs (a, b)).0 =
          subst (λ cs. Agree cs (body_and_tail N g false decoder clock zs (a, b)).0) (sym c)
            (subst (Agree (take n d)) (sym body) (take-Agree n (b * g.hop - a * g.hop) d)) in
        blended-Agree s.carry (body_and_tail N g false decoder clock zs (a, b)).0 same ∙ body

    chunk_loop-Carried :
        (field k t0 : ℕ) (zs : List F) (s : Loop N.Sample) (a : ℕ) (rest : List (ℕ × ℕ))
        → Local decoder g.hop field
        → g.crossfade_samples ≤ k * g.hop
        → k + field ≤ g.overlap_frames
        → Carried zs a s.carry
        → a ≤ length zs
        → Tiles a (length zs) rest
        → concatenate N g false decoder clock (chunk_loop N g false decoder clock zs t0 s rest).1
          ≡ slice (a * g.hop) (length zs * g.hop) (decoder zs)
    unfolding chunk_loop concatenate
    chunk_loop-Carried field k t0 zs s a [] l x f c h t = sym (
        slice_empty (a * g.hop) (length zs * g.hop) (decoder zs)
          (mul-le-mul_right g.hop (omega arith)))
    chunk_loop-Carried field k t0 zs s a ((from, y) ∷ rest) l x f c h (e, lt, le, t) =
        let u = (round_chunk N g false decoder clock zs t0 s (from, y)).0 in
        let c' : Carried zs from s.carry = subst (λ i. Carried zs i s.carry) (sym e) c in
        let up : from ≤ y = omega arith in
        ap₂ (λ p q. p ++ q) (round_chunk-Carried field t0 zs s from y l (omega arith) c' up le)
          (chunk_loop-Carried field k t0 zs u y rest l x f
            (subst (Carried zs y)
              (sym (round_chunk-carry N g false decoder clock t0 zs s (from, y)))
              (tail-Carried field k zs from y l x f up le))
            le t)
        ∙ ap
            (λ i.
              slice (i * g.hop) (y * g.hop) (decoder zs)
              ++ slice (y * g.hop) (length zs * g.hop) (decoder zs))
            e
        ∙ slice-append (a * g.hop) (y * g.hop) (length zs * g.hop) (decoder zs)
            (mul-le-mul_right g.hop (omega arith)) (mul-le-mul_right g.hop le)

    -- In exact arithmetic streaming with a linear crossfade gives the very samples of a single decode of the utterance,
    -- where the context holds the decoder's receptive field and the frames of the crossfade beside it: what
    -- fades out is what fades in, so the blend changes nothing, whatever the sizes of the chunks.
    pub synthesize_from_latents-crossfade :
        (field k t0 : ℕ) (zs : List F)
        → IsValid g
        → Local decoder g.hop field
        → g.crossfade_samples ≤ k * g.hop
        → k + field ≤ g.overlap_frames
        → (synthesize_from_latents N g false decoder clock zs t0).0
          ≡ decode_full N g false decoder clock zs
    unfolding synthesize_from_latents stream_from_latents stream_latents decode_full start
    synthesize_from_latents-crossfade field k t0 zs v l x f =
        chunk_loop-Carried field k t0 zs _ 0 (chunk_bounds g (length zs)) l x f (0, refl)
          (omega arith) (chunk_bounds-Tiles g (length zs) v)
        ∙ ap (λ n. slice n (length zs * g.hop) (decoder zs)) (zero-mul g.hop)
        ∙ slice_all (length zs * g.hop) (decoder zs) (omega (arith, l.length_lem zs))
