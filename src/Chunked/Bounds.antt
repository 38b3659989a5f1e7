-- ===== src/Chunked/Bounds.antt =====
-- The geometry, and how the chunks tile the utterance.
use streaming_tts_serving.Base.{
  ℕ, zero, suc, ◌+◌, ◌-◌, ◌*◌, ◌≤◌, ◌<◌, ◌≡◌, ◌⊎◌, inl, inr, refl, min, List, [], ◌∷◌, map,
  get_elem?, some, drop, ltb, arith, Bool-cases,
}
use streaming_tts_serving.Base.Result.{ok}
use streaming_tts_serving.Chunked.{
  ChunkConfig, ModelConfig, Geometry, hop_length, geometry, derive, next_size, bounds, chunk_bounds,
  seams, seam_positions,
}

-- What the chunk loop relies on.
pub record IsValid (g : Geometry) : Type 0 where
  pub hop_pos : 1 < g.hop
  pub first_pos : 0 < g.first_frames
  pub ordered : g.first_frames ≤ g.max_frames
  pub crossfade_fits : g.crossfade_samples ≤ g.overlap_frames * g.hop

pub geometry-IsValid :
    (conf : ModelConfig) (cfg : ChunkConfig)
    → 1 < hop_length 1 conf.upsample_rates
    → IsValid (geometry conf cfg)
unfolding geometry
geometry-IsValid conf cfg h = record {
  hop_pos = h;
  first_pos = omega arith;
  ordered = omega arith;
  crossfade_fits = ground arith;
}

-- Where a hop length above one can be derived, the constructor succeeds, with a first chunk that has
-- a frame, no chunk longer than `max_frames`, and a crossfade that fits into the context.
pub derive-IsValid :
    (conf : ModelConfig) (cfg : ChunkConfig)
    → 1 < hop_length 1 conf.upsample_rates
    → (g : Geometry) × ((derive conf cfg ≡ ok g) × IsValid g)
unfolding derive
derive-IsValid conf cfg h = (geometry conf cfg, (ground arith, geometry-IsValid conf cfg h))

-- Ranges that follow on one another from `a` to `total`, none of them empty.
abbrev pub Tiles : ℕ → ℕ → List (ℕ × ℕ) → Type 0
Tiles a total [] = a ≡ total
Tiles a total ((x, y) ∷ rest) = (x ≡ a) × (a < y) × (y ≤ total) × Tiles y total rest

next_size-pos : (g : Geometry) (size : ℕ) → IsValid g → 0 < next_size g size
unfolding next_size
next_size-pos g size v = omega (arith, v.first_pos, v.ordered)

bounds-Tiles :
    (g : Geometry) (fuel total a size : ℕ)
    → IsValid g
    → total ≤ fuel + a
    → a ≤ total
    → 0 < size
    → Tiles a total (bounds g fuel total a size)
unfolding bounds
bounds-Tiles g zero total a size v f h s = omega arith
bounds-Tiles g (suc fuel) total a size v f h s = elim (Bool-cases (ltb a total)) [
  | inl more ↦
      rw (more, Tiles)
        (
          refl,
          ground arith,
          omega arith,
          bounds-Tiles g fuel total (min (a + size) total) (next_size g size) v (ground arith)
              (omega arith) (next_size-pos g size v),
        )
  | inr done ↦ rw (done, Tiles) (ground arith)
]

-- The loop of `_stream_latents` ends, and its chunks cover the frames of the utterance once each, in
-- order, none of them empty.
pub chunk_bounds-Tiles :
    (g : Geometry) (total : ℕ) → IsValid g → Tiles 0 total (chunk_bounds g total)
unfolding chunk_bounds
chunk_bounds-Tiles g total v =
    bounds-Tiles g total total 0 g.first_frames v (omega arith) (omega arith) v.first_pos

bounds-head :
    (g : Geometry) (fuel total a size : ℕ)
    → a < total
    → 0 < fuel
    → bounds g fuel total a size ≡ (a, min (a + size) total) ∷ drop 1 (bounds g fuel total a size)
unfolding bounds
bounds-head g zero total a size h f = absurd (omega arith)
bounds-head g (suc fuel) total a size h f = ground arith

bounds_at_end : (g : Geometry) (fuel total a size : ℕ) → total ≤ a → bounds g fuel total a size ≡ []
unfolding bounds
bounds_at_end g zero total a size h = refl
bounds_at_end g (suc fuel) total a size h = ground arith

seams-bounds :
    (g : Geometry) (fuel total a size : ℕ)
    → IsValid g
    → total ≤ fuel + a
    → 0 < size
    → seams g fuel total a size ≡ map (λ ab. ab.0 * g.hop) (drop 1 (bounds g fuel total a size))
unfolding seams bounds
seams-bounds g zero total a size v f s = refl
seams-bounds g (suc fuel) total a size v f s =
    let b = min (a + size) total in
    ground (
      arith,
      seams-bounds g fuel total b (next_size g size) v,
      bounds-head g fuel total b (next_size g size),
      next_size-pos g size v,
      bounds_at_end g fuel total b (next_size g size),
    )

-- The seams that the sweep looks at are where the chunks of the stream meet: the first sample of
-- each chunk but the first.
pub seam_positions-chunk_bounds :
    (g : Geometry) (total : ℕ)
    → IsValid g
    → seam_positions g total ≡ map (λ ab. ab.0 * g.hop) (drop 1 (chunk_bounds g total))
unfolding seam_positions chunk_bounds
seam_positions-chunk_bounds g total v =
    seams-bounds g total total 0 g.first_frames v (omega arith) v.first_pos

-- Each range but the last is at least as long as those before it, and none is longer than `most`.
abbrev pub Grows : ℕ → ℕ → ℕ → List (ℕ × ℕ) → Type 0
Grows most total least [] = Unit
Grows most total least ((a, b) ∷ rest) =
    (b - a ≤ most) × ((b ≡ total) ⊎ (least ≤ b - a)) × Grows most total (b - a) rest

next_size-le :
    (g : Geometry) (size : ℕ)
    → size ≤ g.max_frames
    → (size ≤ next_size g size) × (next_size g size ≤ g.max_frames)
unfolding next_size
next_size-le g size m = omega arith

bounds-Grows :
    (g : Geometry) (fuel total a size least : ℕ)
    → IsValid g
    → size ≤ g.max_frames
    → least ≤ size
    → Grows g.max_frames total least (bounds g fuel total a size)
unfolding bounds
bounds-Grows g zero total a size least v m l = tt
bounds-Grows g (suc fuel) total a size least v m l = elim (Bool-cases (ltb a total)) [
  | inl more ↦
      rw (more, Grows)
        (
          omega arith,
          omega arith,
          bounds-Grows g fuel total (min (a + size) total) (next_size g size)
              (min (a + size) total - a) v (omega (arith, next_size-le g size m))
              (omega (arith, next_size-le g size m)),
        )
  | inr done ↦ rw (done, Grows) tt
]

-- Chunks only grow: in an utterance that has a frame, each chunk but the last has at least the frames
-- of the one before it, none has more than `max_frames`, and the first has `first_frames` of them,
-- or all there are.
pub chunk_bounds-Grows :
    (g : Geometry) (total : ℕ)
    → IsValid g
    → 0 < total
    → Grows g.max_frames total g.first_frames (chunk_bounds g total)
      × (get_elem? (chunk_bounds g total) 0 ≡ some (0, min g.first_frames total))
unfolding chunk_bounds
chunk_bounds-Grows g total v h = (
  bounds-Grows g total total 0 g.first_frames g.first_frames v v.ordered (omega arith),
  ground (arith, bounds-head g total total 0 g.first_frames h h),
)
