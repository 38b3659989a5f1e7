-- ===== src/Examples/Chunks.antt =====
-- The chunked decode, the capture of latents and the audio formats at concrete inputs.
use streaming_tts_serving.Base.{
  ℕ, zero, suc, ◌+◌, ◌-◌, ◌*◌, ◌≤◌, ◌<◌, ◌≡◌, ◌∙◌, refl, sym, ap, ap₂, min, true, false, Bool,
  if◌then◌else◌, none, List, [], ◌∷◌, length, arith, map, take, drop, replicate, drop-drop, slice,
}
use streaming_tts_serving.Base.Int.{pos, negsuc}
use streaming_tts_serving.Audio.{clip, quantize, to_wav_bytes}
use streaming_tts_serving.Audio.Laws.{to_wav_bytes_lem, read_frames}
use streaming_tts_serving.Chunked.{
  ChunkConfig, ModelConfig, Numeric, Geometry, hop_length, chunk_bounds,
}
use streaming_tts_serving.Chunked.Bounds.{IsValid, Tiles, chunk_bounds-Tiles}
use streaming_tts_serving.Chunked.Stream.{stream_latents, synthesize_from_latents, decode_full}
use streaming_tts_serving.Chunked.Crossfade.{ExactFade, synthesize_from_latents-crossfade}
use streaming_tts_serving.Chunked.Decode.{Local, synthesize_from_latents-decode_full}
use streaming_tts_serving.Chunked.Stats.{stream_latents-stats, kept, decoded, sampled}
use streaming_tts_serving.Chunked.Capture.{
  Model, Forward, own, outcome, last_call, capture_latents, capture_latents_lem,
}

-- Samples are whole numbers here, and a decoder says each frame twice.
abbrev pub numbers : Numeric
numbers = record {
  Sample = ℕ;
  Weight = ℕ;
  times = λ x w. x * w;
  plus = λ x y. x + y;
  zero_weight = 0;
  one_weight = 1;
  half_pi = 1;
  linspace = λ a b n. [];
  minus = λ a b. a - b;
  cos = λ a. a;
  sin = λ a. a;
  clip = λ x. min x 100;
  to_int16 = λ x. pos x;
}

abbrev pub twice : List ℕ → List ℕ
twice [] = []
twice (x ∷ xs) = x ∷ x ∷ twice xs

length-twice : (xs : List ℕ) → length (twice xs) ≡ length xs * 2
length-twice [] = refl
length-twice (x ∷ xs) = omega (arith, length-twice xs)

take-twice : (n : ℕ) (xs : List ℕ) → take (n * 2) (twice xs) ≡ twice (take n xs)
take-twice zero xs = refl
take-twice (suc n) [] = let e : suc n * 2 ≡ suc (suc (n * 2)) = omega arith in rw e refl
take-twice (suc n) (x ∷ xs) =
    let e : suc n * 2 ≡ suc (suc (n * 2)) = omega arith in
    rw e (ap (λ t. x ∷ x ∷ t) (take-twice n xs))

drop-twice : (n : ℕ) (xs : List ℕ) → drop (n * 2) (twice xs) ≡ twice (drop n xs)
drop-twice zero xs = refl
drop-twice (suc n) [] = let e : suc n * 2 ≡ suc (suc (n * 2)) = omega arith in rw e refl
drop-twice (suc n) (x ∷ xs) =
    let e : suc n * 2 ≡ suc (suc (n * 2)) = omega arith in rw e (drop-twice n xs)

slice-twice : (i j : ℕ) (xs : List ℕ) → slice (i * 2) (j * 2) (twice xs) ≡ twice (slice i j xs)
slice-twice i j xs =
    let e : j * 2 - i * 2 ≡ (j - i) * 2 = omega arith in
    ap₂ (λ n ys. take n ys) e (drop-twice i xs) ∙ take-twice (j - i) (drop i xs)

take-take : (m n : ℕ) (xs : List ℕ) → m ≤ n → take m (take n xs) ≡ take m xs
take-take zero n xs h = refl
take-take (suc m) zero xs h = absurd (omega arith)
take-take (suc m) (suc n) [] h = refl
take-take (suc m) (suc n) (x ∷ xs) h = ap (λ t. x ∷ t) (take-take m n xs (omega arith))

take_none : (k : ℕ) → take {A = ℕ} k [] ≡ []
take_none zero = refl
take_none (suc k) = refl

drop-take : (m n : ℕ) (xs : List ℕ) → m ≤ n → drop m (take n xs) ≡ take (n - m) (drop m xs)
drop-take zero n xs h = ap (λ k. take k xs) {x = n} {y = n - 0} (omega arith)
drop-take (suc m) zero xs h = absurd (omega arith)
drop-take (suc m) (suc n) [] h = sym (take_none (suc n - suc m))
drop-take (suc m) (suc n) (x ∷ xs) h =
    drop-take m n xs (omega arith)
    ∙ ap (λ k. take k (drop m xs)) {x = n - m} {y = suc n - suc m} (omega arith)

slice_of-slice :
    (lo a b hi : ℕ) (xs : List ℕ)
    → lo ≤ a
    → a ≤ b
    → b ≤ hi
    → slice (a - lo) (b - lo) (slice lo hi xs) ≡ slice a b xs
slice_of-slice lo a b hi xs h h' h'' =
    ap (λ ys. take (b - lo - (a - lo)) ys)
      (drop-take (a - lo) (hi - lo) (drop lo xs) (omega arith)
        ∙ ap (λ ys. take (hi - lo - (a - lo)) ys)
            (drop-drop lo (a - lo) xs
              ∙ ap (λ n. drop n xs) {x = lo + (a - lo)} {y = a} (omega arith)))
    ∙ take-take (b - lo - (a - lo)) (hi - lo - (a - lo)) (drop a xs) (omega arith)
    ∙ ap (λ n. take n (drop a xs)) {x = b - lo - (a - lo)} {y = b - a} (omega arith)

pub twice-Local : Local twice 2 0
twice-Local = record {
  length_lem = length-twice;
  local_lem = λ zs lo a b hi h h' h'' h3 l r.
      slice-twice (a - lo) (b - lo) (slice lo hi zs)
      ∙ ap twice (slice_of-slice lo a b hi zs h h' h'')
      ∙ sym (slice-twice a b zs);
}

abbrev geo : Geometry
geo = record {
  sr = 16000;
  hop = 2;
  first_frames = 2;
  max_frames = 5;
  crossfade_samples = 0;
  overlap_frames = 1;
  growth = λ s. s + s;
}

geo-IsValid : IsValid geo
geo-IsValid = record {
  hop_pos = omega arith;
  first_pos = omega arith;
  ordered = omega arith;
  crossfade_fits = omega arith;
}

abbrev pub frames : List ℕ
frames = 1 ∷ 2 ∷ 3 ∷ 4 ∷ 5 ∷ 6 ∷ 7 ∷ 8 ∷ 9 ∷ []

abbrev pub clock : ℕ → ℕ
clock n = 7 * n

synthesize_from_latents-decode_full_example :
    (synthesize_from_latents numbers geo false twice clock frames 0).0
    ≡ decode_full numbers geo false twice clock frames
synthesize_from_latents-decode_full_example =
    synthesize_from_latents-decode_full numbers geo false twice clock 0 0 frames geo-IsValid
      twice-Local (omega arith) refl

-- A weight is all or nothing here, so that a sample and its fades are exact.
abbrev pub faded : Numeric
faded = record {
  Sample = ℕ;
  Weight = Bool;
  times = λ x w. if w then x else 0;
  plus = λ x y. x + y;
  zero_weight = false;
  one_weight = true;
  half_pi = true;
  linspace = λ a b n. replicate n b;
  minus = λ a b. if b then false else a;
  cos = λ a. a;
  sin = λ a. a;
  clip = λ x. min x 32767;
  to_int16 = λ x. pos x;
}

fade :
    (x : ℕ) (w : Bool) → (if (if w then false else true) then x else 0) + (if w then x else 0) ≡ x
fade x true = omega arith
fade x false = omega arith

pub faded-ExactFade : ExactFade faded
faded-ExactFade = record { exact = fade }

abbrev pub fading : Geometry
fading = record {
  sr = 16000;
  hop = 2;
  first_frames = 2;
  max_frames = 5;
  crossfade_samples = 1;
  overlap_frames = 1;
  growth = λ s. s + s;
}

pub fading-IsValid : IsValid fading
fading-IsValid = record {
  hop_pos = omega arith;
  first_pos = omega arith;
  ordered = omega arith;
  crossfade_fits = omega arith;
}

synthesize_from_latents-crossfade_example :
    (synthesize_from_latents faded fading false twice clock frames 0).0
    ≡ decode_full faded fading false twice clock frames
synthesize_from_latents-crossfade_example =
    synthesize_from_latents-crossfade faded faded-ExactFade fading twice clock 0 1 0 frames
      fading-IsValid twice-Local (omega arith) (omega arith)

chunk_bounds-Tiles_example : Tiles 0 9 (chunk_bounds geo 9)
chunk_bounds-Tiles_example = chunk_bounds-Tiles geo 9 geo-IsValid

abbrev pub mms : ModelConfig
mms = record { sampling_rate = 16000; upsample_rates = 8 ∷ 8 ∷ 2 ∷ 2 ∷ [] }

abbrev pub defaults : ChunkConfig
defaults = record {
  first_chunk_us = 200000;
  max_chunk_us = 800000;
  growth = λ s. s + s;
  overlap_frames = 13;
  crossfade_us = 0;
  equal_power = false;
}

mms_hop : 1 < hop_length 1 (8 ∷ 8 ∷ 2 ∷ 2 ∷ [])
unfolding hop_length
mms_hop = omega arith

stream_latents-stats_example :
    let out = stream_latents numbers geo false twice clock frames 0 3 in
    (out.1.chunks ≡ length out.0)
    × (length out.1.decode ≡ length out.0)
    × (out.1.audio_samples ≡ sampled out.0)
    × (out.1.decoded_frames ≡ decoded out.0)
    × (kept out.0 ≡ length frames)
    × (out.1.wasted_frames + length frames ≡ out.1.decoded_frames)
stream_latents-stats_example =
    stream_latents-stats numbers geo false twice clock frames 0 3 geo-IsValid

abbrev vits : Model ℕ
vits = record { decoder = own }

abbrev pass : Forward ℕ ℕ
pass = record { calls = 4 ∷ 5 ∷ []; raised = none }

capture_latents_lem_example :
    ((capture_latents vits pass).0 ≡ vits)
    × ((capture_latents vits pass).1 ≡ outcome pass.raised (last_call none pass.calls))
capture_latents_lem_example = capture_latents_lem vits pass

to_wav_bytes_lem_example :
    (length (to_wav_bytes 1000 (pos 500 ∷ negsuc 20 ∷ []) 16000)
      ≡ 44 + 2 * length (pos 500 ∷ negsuc 20 ∷ []))
    × (read_frames (drop 44 (to_wav_bytes 1000 (pos 500 ∷ negsuc 20 ∷ []) 16000))
        ≡ map (λ x. quantize 1000 (clip 1000 x)) (pos 500 ∷ negsuc 20 ∷ []))
to_wav_bytes_lem_example = to_wav_bytes_lem 1000 (pos 500 ∷ negsuc 20 ∷ []) 16000 (omega arith)

decoded_some : 0 < length (decode_full numbers geo false twice clock frames)
unfolding decode_full
decoded_some = omega arith

abbrev pub square_diff : ℕ → ℕ → ℕ
square_diff x y = (x - y) * (x - y) + (y - x) * (y - x)

pub square_diff-same : (x : ℕ) → square_diff x x ≡ 0
square_diff-same x = let e : x - x ≡ 0 = omega arith in rw e refl
