-- ===== src/Speedup/Cost.antt =====
-- The cost model of export/measure_speedup.py. Audio is in hundredths of a second and GPU time in hundredths
-- of a millisecond, as the rows round them; the price of a GPU-hour is in cents.
use streaming_tts_serving.Base.{ℕ, ◌+◌, ◌*◌, Option, none, some, List, [], ◌∷◌, ◌==◌, if◌then◌else◌}
use streaming_tts_serving.Chunked.{round}

-- a row: the audio of an utterance, and the time of the two paths
pub record Row : Type 0 where
  pub audio : ℕ
  pub torch : ℕ
  pub trt : ℕ

-- The row of an utterance of `frames` frames; the two times are measured, in millionths of a second.
unfoldable pub row : ℕ → ℕ → ℕ → ℕ → ℕ → Row
row sr hop frames torch_us trt_us = record {
  audio = round (frames * hop * 100) sr;
  torch = round torch_us 10;
  trt = round trt_us 10;
}

unfoldable pub weighted : List Row → Row
weighted [] = record { audio = 0; torch = 0; trt = 0 }
weighted (r ∷ rs) =
    let t = weighted rs in
    record { audio = r.audio + t.audio; torch = r.torch + t.torch; trt = r.trt + t.trt }

-- What an amount of GPU time costs; thousandths of a second, millionths of a dollar, tenths of a minute.
pub record Cost : Type 0 where
  pub gpu_seconds_per_audio_minute : ℕ
  pub usd_per_audio_minute : ℕ
  pub audio_minutes_per_gpu_hour : ℕ

-- `cost`; no audio, or no GPU time, raises
unfoldable pub cost : ℕ → ℕ → ℕ → Option Cost
cost price audio ms =
    if audio == 0
    then none
    else if ms == 0
    then none
    else some (record {
      gpu_seconds_per_audio_minute = round (ms * 60) audio;
      usd_per_audio_minute = round (ms * (60 * price * 1000000)) (audio * 360000000);
      audio_minutes_per_gpu_hour = round (audio * 36000000) (ms * 60);
    })

-- `1 - trt / torch` of the costs as they are rounded, by its two terms; a cost that is rounded to 0 raises
unfoldable pub cost_reduction : Cost → Cost → Option (ℕ × ℕ)
cost_reduction torch trt =
    if torch.usd_per_audio_minute == 0
    then none
    else some (trt.usd_per_audio_minute, torch.usd_per_audio_minute)
