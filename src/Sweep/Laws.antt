-- ===== src/Sweep/Laws.antt =====
-- What the metrics say of a stream that is decoded with enough context.
use streaming_tts_serving.Base.{
  ℕ, ◌+◌, ◌-◌, ◌≤◌, ◌<◌, ◌≡◌, ◌∙◌, refl, ap, min, Bool, false, List, [], ◌∷◌, length, take, slice,
  ltb, ◌==◌, if◌then◌else◌, Bool-cases, inl, inr, arith, length-slice,
}
use streaming_tts_serving.Chunked.{Numeric, Geometry, seam_positions}
use streaming_tts_serving.Chunked.Bounds.{IsValid}
use streaming_tts_serving.Chunked.Decode.{Local, synthesize_from_latents-decode_full}
use streaming_tts_serving.Chunked.Stream.{synthesize_from_latents, decode_full}
use streaming_tts_serving.Sweep.{infinity, lower, error_power, snr_db, worst_seam, seam_snr_db}

module _ {S : Type 0} (square : S → ℕ) (square_diff : S → S → ℕ)
    (same : (x : S) → square_diff x x ≡ 0) where
  error_power-same : (xs : List S) → error_power square square_diff xs xs ≡ 0
  unfolding error_power
  error_power-same [] = refl
  error_power-same (x ∷ xs) = omega (arith, same x, error_power-same xs)

  snr_db-same : (xs : List S) → 0 < length xs → snr_db square square_diff xs xs ≡ infinity
  unfolding snr_db
  snr_db-same xs h =
      let e : error_power square square_diff (take (min (length xs) (length xs)) xs)
            (take (min (length xs) (length xs)) xs)
          ≡ 0 =
        error_power-same (take (min (length xs) (length xs)) xs) in
      let n : (min (length xs) (length xs) == 0) ≡ false = ground arith in rw (n, e) refl

  window-same :
      (xs : List S) (lo hi : ℕ)
      → hi ≤ length xs
      → (if ltb (hi - lo) 16
          then infinity
          else lower infinity (snr_db square square_diff (slice lo hi xs) (slice lo hi xs)))
        ≡ infinity
  unfolding lower
  window-same xs lo hi h = elim (Bool-cases (ltb (hi - lo) 16)) [
    | inl e ↦ rw e refl
    | inr e ↦
        let wide : 16 ≤ hi - lo = ground arith in
        rw e (snr_db-same (slice lo hi xs) (omega (arith, length-slice lo hi xs (omega arith) h)))
  ]

  pub worst_seam-same :
      (xs : List S) (seams : List ℕ) (half_window : ℕ)
      → worst_seam square square_diff xs xs seams half_window infinity ≡ infinity
  unfolding worst_seam
  worst_seam-same xs [] half_window = refl
  worst_seam-same xs (s ∷ seams) half_window =
      ap (λ w. worst_seam square square_diff xs xs seams half_window w)
        (window-same xs (s - half_window) (min (length xs) (s + half_window)) (omega arith))
      ∙ worst_seam-same xs seams half_window

module _ (N : Numeric) {F : Type 0} (g : Geometry) (equal_power : Bool)
    (decoder : List F → List N.Sample) (clock : ℕ → ℕ) (square : N.Sample → ℕ)
    (square_diff : N.Sample → N.Sample → ℕ) where
  -- With the crossfade off and a context that is at least the receptive field, the sweep finds no
  -- error at all: the level over the whole utterance and the worst one at a seam are both infinite,
  -- for every utterance that has audio and every width of the window.
  pub seam_snr_db-infinity :
      (same : (x : N.Sample) → square_diff x x ≡ 0) (field t0 half_window : ℕ) (zs : List F)
      → IsValid g
      → Local decoder g.hop field
      → field ≤ g.overlap_frames
      → g.crossfade_samples ≡ 0
      → 0 < length (decode_full N g equal_power decoder clock zs)
      → let ref = decode_full N g equal_power decoder clock zs in
        let test = (synthesize_from_latents N g equal_power decoder clock zs t0).0 in
        (snr_db square square_diff ref test ≡ infinity)
        × (seam_snr_db square square_diff ref test (seam_positions g (length zs)) half_window
            ≡ infinity)
  unfolding seam_snr_db
  seam_snr_db-infinity same field t0 half_window zs v l f x h =
      let ref = decode_full N g equal_power decoder clock zs in
      let e : (synthesize_from_latents N g equal_power decoder clock zs t0).0 ≡ ref =
        synthesize_from_latents-decode_full N g equal_power decoder clock field t0 zs v l f x in
      (
        ap (λ t. snr_db square square_diff ref t) e ∙ snr_db-same square square_diff same ref h,
        ap
              (λ t.
                worst_seam square square_diff ref t (seam_positions g (length zs)) half_window
                  infinity)
              e
            ∙ worst_seam-same square square_diff same ref (seam_positions g (length zs))
                half_window,
      )
