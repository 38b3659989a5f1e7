-- ===== src/Batching/Laws.antt =====
-- What the table of costs holds, and how close the estimate of the streams is.
use native.Mathlib.Nat.{div-add-mod', mod-lt, add-mul, mul-pos}
use streaming_tts_serving.Base.{
  ℕ, ◌+◌, ◌*◌, ◌/◌, ◌%◌, ◌≤◌, ◌<◌, ◌≡◌, inl, inr, refl, some, Bool-cases, if_both, false, ltb, ◌==◌,
  arith,
}
use streaming_tts_serving.Chunked.{round}
use streaming_tts_serving.Batching.{Cost, chunk_frames, capacity}

-- `v` is at most a half away from `n / d`
abbrev pub Near : ℕ → ℕ → ℕ → Type 0
Near n d v = (2 * n ≤ 2 * (v * d) + d) × (2 * (v * d) ≤ 2 * n + d)

div-Near : (n d : ℕ) → 0 < d → 2 * (n % d) ≤ d → Near n d (n / d)
div-Near n d h k = (omega (arith, div-add-mod' n d), omega (arith, div-add-mod' n d))

suc_div-Near : (n d : ℕ) → 0 < d → d ≤ 2 * (n % d) → Near n d (n / d + 1)
suc_div-Near n d h k =
    let e : (n / d + 1) * d ≡ n / d * d + d = omega (arith, add-mul (n / d) 1 d) in
    (omega (arith, div-add-mod' n d, mod-lt n h, e), omega (arith, div-add-mod' n d, mod-lt n h, e))

-- A rounded fraction is at most a half away.
pub round-Near : (n d : ℕ) → 0 < d → Near n d (round n d)
unfolding round
round-Near n d h = elim (Bool-cases (ltb (2 * (n % d)) d)) [
  | inl e ↦ rw e (div-Near n d h (ground arith))
  | inr e ↦ elim (Bool-cases (ltb d (2 * (n % d)))) [
    | inl f ↦ rw (e, f) (suc_div-Near n d h (ground arith))
    | inr f ↦
        rw (e, f)
          (if_both (Near n d) (n / d % 2 == 0) (n / d) (n / d + 1) (div-Near n d h (ground arith))
            (suc_div-Near n d h (ground arith)))
  ]
]

-- The estimate is at most half a stream away from the streams that the calls within the time of a chunk serve,
-- for each batch of a row whose calls took time.
pub capacity-Near :
    (sr hop : ℕ) (c : Cost)
    → 0 < sr
    → 0 < c.total_us
    → (streams : ℕ) × (capacity sr hop c ≡ some streams)
      × Near (chunk_frames sr hop 200000 * hop * 1000000 * c.batch) (sr * c.total_us) streams
unfolding capacity
capacity-Near sr hop c h t =
    let some_time : (c.total_us == 0) ≡ false = ground arith in
    (
      round (chunk_frames sr hop 200000 * hop * 1000000 * c.batch) (sr * c.total_us),
      rw some_time refl,
      round-Near _ (sr * c.total_us) (mul-pos h t),
    )
