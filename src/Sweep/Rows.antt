-- ===== src/Sweep/Rows.antt =====
-- The sweeps that `main` of streaming/sweep.py makes: the overlap, the size of the first chunk, and the
-- crossfade. A mean is kept as the list that it is taken of, and the growth of the chunks is the default's.
use streaming_tts_serving.Base.{
  ℕ, ◌*◌, ◌^◌, Bool, true, false, List, [], ◌∷◌, map, length, ltb, if◌then◌else◌,
}
use streaming_tts_serving.Chunked.{ChunkConfig, ModelConfig, Numeric, geometry, seam_positions}
use streaming_tts_serving.Chunked.Stream.{StreamStats, synthesize_from_latents, decode_full}
use streaming_tts_serving.Probe.{larger, seam_step_ratio}
use streaming_tts_serving.Sweep.{
  Decibels, minus_infinity, ratio, infinity, lower, snr_db, seam_snr_db,
}

pub data Verdict : Type 0 where
  clean : Verdict
  marginal : Verdict
  audible_click : Verdict

-- whether a level is above `10 * n` decibels: the powers' ratio is above the n-th power of ten
unfoldable pub above : ℕ → Decibels → Bool
above n minus_infinity = false
above n infinity = true
above n (ratio p q) = ltb (10 ^ n * q) p

unfoldable pub verdict : Decibels → Verdict
verdict s = if above 4 s then clean else if above 2 s then marginal else audible_click

-- `np.min` of a list that is not empty
unfoldable pub lowest : List Decibels → Decibels
lowest [] = infinity
lowest (d ∷ ds) = lower d (lowest ds)

-- A fraction is kept as its two terms.
pub record OverlapRow : Type 0 where
  pub overlap : ℕ
  pub global_snr_db : List Decibels
  pub seam_snr_db : Decibels
  pub wasted : List (ℕ × ℕ)
  pub heard : Verdict

pub record ChunkRow : Type 0 where
  pub first_us : ℕ
  pub ttfa : List ℕ
  pub chunks : List ℕ
  pub wasted : List (ℕ × ℕ)
  pub seam_snr_db : Decibels

pub record Curve : Type 0 where
  pub snr_db : Decibels
  pub step_ratio : ℕ × ℕ

pub record CrossfadeRow : Type 0 where
  pub crossfade_us : ℕ
  pub linear : Curve
  pub equal_power : Curve

-- the configurations of the three sweeps
unfoldable pub config : (ℕ → ℕ) → ℕ → ℕ → ℕ → Bool → ChunkConfig
config growth first_us overlap crossfade_us equal_power = record {
  first_chunk_us = first_us;
  max_chunk_us = 800000;
  growth = growth;
  overlap_frames = overlap;
  crossfade_us = crossfade_us;
  equal_power = equal_power;
}

unfoldable pub wasted_fraction : StreamStats → ℕ × ℕ
wasted_fraction stats = (stats.wasted_frames, stats.decoded_frames)

unfoldable pub largest_ratio : List (ℕ × ℕ) → ℕ × ℕ
largest_ratio [] = (0, 1)
largest_ratio (r ∷ rs) = larger r (largest_ratio rs)

-- The fixtures are the latents, which all configurations decode. A sample has a value, as a whole number.
module _ (N : Numeric) {F : Type 0} (conf : ModelConfig) (growth : ℕ → ℕ)
    (decoder : List F → List N.Sample) (clock : ℕ → ℕ) (t0 : ℕ) (square : N.Sample → ℕ)
    (square_diff : N.Sample → N.Sample → ℕ) (value : N.Sample → ℕ) (half_window : ℕ) where
  unfoldable pub test_of : ChunkConfig → List F → List N.Sample × StreamStats
  test_of cfg z = synthesize_from_latents N (geometry conf cfg) cfg.equal_power decoder clock z t0

  -- the single decode is made once, by the synthesizer of the default configuration
  unfoldable pub ref_of : List F → List N.Sample
  ref_of z = decode_full N (geometry conf (config growth 200000 13 0 false)) false decoder clock z

  unfoldable pub seams_of : ChunkConfig → List F → List ℕ
  seams_of cfg z = seam_positions (geometry conf cfg) (length z)

  unfoldable pub seam_level : ChunkConfig → List F → Decibels
  seam_level cfg z =
      seam_snr_db square square_diff (ref_of z) (test_of cfg z).0 (seams_of cfg z) half_window

  unfoldable pub overlap_row : List (List F) → ℕ → OverlapRow
  overlap_row fixtures overlap =
      let cfg = config growth 200000 overlap 0 false in
      let s = lowest (map (seam_level cfg) fixtures) in
      record {
        overlap = overlap;
        global_snr_db = map (λ z. snr_db square square_diff (ref_of z) (test_of cfg z).0) fixtures;
        seam_snr_db = s;
        wasted = map (λ z. wasted_fraction (test_of cfg z).1) fixtures;
        heard = verdict s;
      }

  unfoldable pub overlap_rows : List (List F) → List OverlapRow
  overlap_rows fixtures =
      map (overlap_row fixtures) (0 ∷ 2 ∷ 4 ∷ 8 ∷ 11 ∷ 13 ∷ 16 ∷ 20 ∷ 26 ∷ 32 ∷ [])

  unfoldable pub chunk_row : List (List F) → ℕ → ChunkRow
  chunk_row fixtures first_us =
      let cfg = config growth first_us 13 0 false in
      record {
        first_us = first_us;
        ttfa = map (λ z. (test_of cfg z).1.ttfa) fixtures;
        chunks = map (λ z. (test_of cfg z).1.chunks) fixtures;
        wasted = map (λ z. wasted_fraction (test_of cfg z).1) fixtures;
        seam_snr_db = lowest (map (seam_level cfg) fixtures);
      }

  unfoldable pub curve : List (List F) → ChunkConfig → Curve
  curve fixtures cfg = record {
    snr_db = lowest (map (seam_level cfg) fixtures);
    step_ratio = largest_ratio (
        map (λ z. seam_step_ratio (map value (test_of cfg z).0) (seams_of cfg z) half_window)
          fixtures);
  }

  unfoldable pub crossfade_row : List (List F) → ℕ → CrossfadeRow
  crossfade_row fixtures crossfade_us = record {
    crossfade_us = crossfade_us;
    linear = curve fixtures (config growth 200000 13 crossfade_us false);
    equal_power = curve fixtures (config growth 200000 13 crossfade_us true);
  }

  -- the step ratio of the single decodes, the floor that the rows are read against
  unfoldable pub reference_step_ratio : List (List F) → ℕ × ℕ
  reference_step_ratio fixtures = largest_ratio (
      map
        (λ z.
          seam_step_ratio (map value (ref_of z)) (seams_of (config growth 200000 13 0 false) z)
            half_window)
        fixtures)
