-- ===== src/Audio/Laws.antt =====
-- The range, the order and the round trip of 16-bit samples, and the size of the container.
use native.Mathlib.Nat.{le-div_iff_mul-le, div-mul-le_self}
use streaming_tts_serving.Base.{
  ℕ, suc, ◌+◌, ◌-◌, ◌*◌, ◌/◌, ◌≤◌, ◌<◌, ◌≡◌, ◌∙◌, refl, ap, List, [], ◌∷◌, ◌++◌, map, All, length,
  leb, arith, if◌then◌else◌, drop,
}
use streaming_tts_serving.Base.Int.{ℤ, pos, negsuc, pos_part, neg_part, ◌≤ℤ◌}
use streaming_tts_serving.Audio.{
  Bytes, neg, clip, quantize, le16, u16, u32, pcm_bytes, wav_header, wav_file, to_wav_bytes,
  frames_of, write_wav,
}

scaled_le : (n unit : ℕ) → 0 < unit → n ≤ unit → n * 32767 / unit ≤ 32767
scaled_le n unit h le = grind arith

scaled_mono : (n m unit : ℕ) → 0 < unit → n ≤ m → n * 32767 / unit ≤ m * 32767 / unit
scaled_mono n m unit h le =
    (le-div_iff_mul-le h).1 (omega (arith, div-mul-le_self (n * 32767) unit))

-- A reader's two's complement.
unfoldable pub read16 : ℕ → ℕ → ℤ
read16 lo hi = let n = lo + 256 * hi in if leb n 32767 then pos n else negsuc (65535 - n)

-- A reader of the frames of a container.
unfoldable pub read_frames : Bytes → List ℤ
read_frames [] = []
read_frames (lo ∷ []) = []
read_frames (lo ∷ hi ∷ s) = read16 lo hi ∷ read_frames s

-- Every sample that is written fits 16 bits, whatever the decoder gave: the cast never wraps.
pub quantize-clip_range :
    (unit : ℕ) (x : ℤ)
    → 0 < unit
    → (negsuc 32766 ≤ℤ quantize unit (clip unit x)) × (quantize unit (clip unit x) ≤ℤ pos 32767)
unfolding quantize clip
quantize-clip_range unit (pos n) h = ground (arith, scaled_le n unit, scaled_le unit unit)
quantize-clip_range unit (negsuc n) h = ground (arith, scaled_le (suc n) unit, scaled_le unit unit)

clip_mono : (unit : ℕ) (x y : ℤ) → x ≤ℤ y → clip unit x ≤ℤ clip unit y
unfolding clip
clip_mono unit x y h = ground arith

neg_part-neg : (n : ℕ) → (neg_part (neg n) ≡ n) × (pos_part (neg n) ≡ 0)
neg_part-neg n = ground arith

quantize_mono : (unit : ℕ) (x y : ℤ) → 0 < unit → x ≤ℤ y → quantize unit x ≤ℤ quantize unit y
unfolding quantize
quantize_mono unit (pos n) (pos m) h le = omega (arith, scaled_mono n m unit h (omega arith))
quantize_mono unit (pos n) (negsuc m) h le = absurd (omega arith)
quantize_mono unit (negsuc n) (pos m) h le = omega (arith, neg_part-neg (suc n * 32767 / unit))
quantize_mono unit (negsuc n) (negsuc m) h le = omega (
  arith,
  scaled_mono (suc m) (suc n) unit h (omega arith),
  neg_part-neg (suc n * 32767 / unit),
  neg_part-neg (suc m * 32767 / unit),
)

-- A louder sample is never written as a quieter one: the conversion keeps the order of samples.
pub quantize-clip_mono :
    (unit : ℕ) (x y : ℤ)
    → 0 < unit
    → x ≤ℤ y
    → quantize unit (clip unit x) ≤ℤ quantize unit (clip unit y)
quantize-clip_mono unit x y h le = quantize_mono unit _ _ h (clip_mono unit x y le)

abbrev pub Is16Bit : ℤ → Type 0
Is16Bit x = (negsuc 32767 ≤ℤ x) × (x ≤ℤ pos 32767)

pub read_frames-le16 :
    (x : ℤ) (s : Bytes) → Is16Bit x → read_frames (le16 x ++ s) ≡ x ∷ read_frames s
unfolding read16 le16 read_frames
read_frames-le16 (pos n) s h = ground arith
read_frames-le16 (negsuc n) s h = ground arith

read_frames-frames_of : (xs : List ℤ) → All Is16Bit xs → read_frames (frames_of xs) ≡ xs
unfolding frames_of
read_frames-frames_of [] h = unfold read_frames in refl
read_frames-frames_of (x ∷ xs) (hx, h) =
    read_frames-le16 x (frames_of xs) hx ∙ ap (λ t. x ∷ t) (read_frames-frames_of xs h)

quantize-clip-Is16Bit : (unit : ℕ) (x : ℤ) → 0 < unit → Is16Bit (quantize unit (clip unit x))
quantize-clip-Is16Bit unit x h =
    let (lo, hi) = quantize-clip_range unit x h in (omega arith, omega arith)

read_frames-pcm_bytes :
    (unit : ℕ) (audio : List ℤ)
    → 0 < unit
    → read_frames (pcm_bytes unit audio) ≡ map (λ x. quantize unit (clip unit x)) audio
unfolding pcm_bytes
read_frames-pcm_bytes unit [] h = unfold read_frames in refl
read_frames-pcm_bytes unit (x ∷ xs) h =
    read_frames-le16 (quantize unit (clip unit x)) (pcm_bytes unit xs)
      (quantize-clip-Is16Bit unit x h)
    ∙ ap (λ t. quantize unit (clip unit x) ∷ t) (read_frames-pcm_bytes unit xs h)

length-le16 : (x : ℤ) (s : Bytes) → length (le16 x ++ s) ≡ 2 + length s
unfolding le16
length-le16 (pos n) s = omega arith
length-le16 (negsuc n) s = omega arith

length-pcm_bytes : (unit : ℕ) (audio : List ℤ) → length (pcm_bytes unit audio) ≡ 2 * length audio
unfolding pcm_bytes
length-pcm_bytes unit [] = omega arith
length-pcm_bytes unit (x ∷ xs) =
    omega (
      arith,
      length-le16 (quantize unit (clip unit x)) (pcm_bytes unit xs),
      length-pcm_bytes unit xs,
    )

drop-wav_file : (sr : ℕ) (frames : Bytes) → drop 44 (wav_file sr frames) ≡ frames
unfolding wav_file wav_header u16 u32
drop-wav_file sr frames = refl

length-wav_file : (sr : ℕ) (frames : Bytes) → length (wav_file sr frames) ≡ 44 + length frames
unfolding wav_file wav_header u16 u32
length-wav_file sr frames = omega arith

-- The container has a header of 44 bytes and two bytes for each sample, and a reader behind the
-- header gets each sample clipped and quantized, in order.
pub to_wav_bytes_lem :
    (unit : ℕ) (audio : List ℤ) (sr : ℕ)
    → 0 < unit
    → (length (to_wav_bytes unit audio sr) ≡ 44 + 2 * length audio)
      × (read_frames (drop 44 (to_wav_bytes unit audio sr))
          ≡ map (λ x. quantize unit (clip unit x)) audio)
unfolding to_wav_bytes
to_wav_bytes_lem unit audio sr h = (
  length-wav_file sr (pcm_bytes unit audio) ∙ ap (λ n. 44 + n) (length-pcm_bytes unit audio),
  ap read_frames (drop-wav_file sr (pcm_bytes unit audio)) ∙ read_frames-pcm_bytes unit audio h,
)

-- A reader behind the header of a file that `write_wav` wrote gets the 16-bit samples back.
pub read_frames-write_wav :
    (pcm : List ℤ) (sr : ℕ) → All Is16Bit pcm → read_frames (drop 44 (write_wav pcm sr)) ≡ pcm
unfolding write_wav
read_frames-write_wav pcm sr h =
    ap read_frames (drop-wav_file sr (frames_of pcm)) ∙ read_frames-frames_of pcm h
