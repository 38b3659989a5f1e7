-- ===== src/Speedup/Rounding.antt =====
-- What rounding does to the cost reduction.
use native.Mathlib.Nat.{mul-le-mul_right, le_of_mul-le-mul_right}
use streaming_tts_serving.Base.{ℕ, ◌+◌, ◌*◌, ◌≤◌, ◌<◌, ◌≡◌, refl, some, ◌==◌, false, arith}
use streaming_tts_serving.Batching.Laws.{Near, round-Near}
use streaming_tts_serving.Chunked.{round}
use streaming_tts_serving.Speedup.Cost.{Cost, cost}

-- Two fractions `m * k / d` and `t * k / d`, rounded to `u` and `v`, are in the ratio of `m` and `t`, but for half of
-- each.
Near-ratio :
    (m t k d u v : ℕ)
    → 0 < d
    → Near (m * k) d u
    → Near (t * k) d v
    → 2 * (v * m) ≤ 2 * (u * t) + (m + t)
Near-ratio m t k d u v h (lo, hi) (lo', hi') = le_of_mul-le-mul_right scaled h
  where
    above : (2 * (v * d)) * m ≤ (2 * (t * k) + d) * m
    above = mul-le-mul_right m hi'

    below : (2 * (m * k)) * t ≤ (2 * (u * d) + d) * t
    below = mul-le-mul_right t lo

    scaled : (2 * (v * m)) * d ≤ (2 * (u * t) + (m + t)) * d
    scaled = omega (arith, above, below)

priced : (price audio ms : ℕ) → Cost
priced price audio ms = record {
  gpu_seconds_per_audio_minute = round (ms * 60) audio;
  usd_per_audio_minute = round (ms * (60 * price * 1000000)) (audio * 360000000);
  audio_minutes_per_gpu_hour = round (audio * 36000000) (ms * 60);
}

cost-priced :
    (price audio ms : ℕ) → 0 < audio → 0 < ms → cost price audio ms ≡ some (priced price audio ms)
unfolding cost priced
cost-priced price audio ms h k =
    let e : (audio == 0) ≡ false = ground arith in
    let f : (ms == 0) ≡ false = ground arith in rw (e, f) refl

-- Cost falls in the proportion of the GPU time, but for rounding: where there is audio and both paths took time, the
-- costs of an audio minute, in millionths of a dollar, have the ratio of the two times, up to half a
-- millionth in each of them, whatever the price.
pub cost-ratio :
    (price audio torch trt : ℕ)
    → 0 < audio
    → 0 < torch
    → 0 < trt
    → (c c' : Cost) × (cost price audio torch ≡ some c)
      × (cost price audio trt ≡ some c')
      × (2 * (c'.usd_per_audio_minute * torch) ≤ 2 * (c.usd_per_audio_minute * trt) + (torch + trt))
      × (2 * (c.usd_per_audio_minute * trt) ≤ 2 * (c'.usd_per_audio_minute * torch) + (torch + trt))
unfolding priced
cost-ratio price audio torch trt h k l =
    let d : 0 < audio * 360000000 = omega arith in
    let p = 60 * price * 1000000 in
    let u = round-Near (torch * p) (audio * 360000000) d in
    let v = round-Near (trt * p) (audio * 360000000) d in
    (
      priced price audio torch,
      priced price audio trt,
      cost-priced price audio torch h k,
      cost-priced price audio trt h l,
      Near-ratio torch trt p (audio * 360000000) _ _ d u v,
      omega (arith, Near-ratio trt torch p (audio * 360000000) _ _ d v u),
    )
