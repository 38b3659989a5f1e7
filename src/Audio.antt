-- ===== src/Audio.antt =====
-- 16-bit audio: the conversion of streaming/chunked.py and baseline/server.py, and the WAV container
-- that `wave` writes for baseline/server.py and streaming/client.py.
pub mod Laws
use streaming_tts_serving.Base.{
  ℕ, suc, ◌+◌, ◌-◌, ◌*◌, ◌/◌, ◌%◌, ◌^◌, Bool, true, false, List, [], ◌∷◌, ◌++◌, flat_map, map,
  length, leb, if◌then◌else◌,
}
use streaming_tts_serving.Base.Int.{ℤ, pos, negsuc}
use streaming_tts_serving.Base.Text.{codes}

abbrev pub Bytes : Type 0
Bytes = List ℕ

-- minus a natural number
abbrev pub neg : ℕ → ℤ
neg n = if leb n 0 then pos 0 else negsuc (n - 1)

-- A float sample is a whole number of parts of `unit`: 1.0 is `pos unit`.
-- `np.clip(x, -1.0, 1.0)`
unfoldable pub clip : ℕ → ℤ → ℤ
clip unit (pos n) = if leb n unit then pos n else pos unit
clip unit (negsuc n) = if leb (suc n) unit then negsuc n else neg unit

-- `(x * 32767.0).astype("<i2")`: the cast drops the fraction
unfoldable pub quantize : ℕ → ℤ → ℤ
quantize unit (pos n) = pos (n * 32767 / unit)
quantize unit (negsuc n) = neg (suc n * 32767 / unit)

-- the two bytes of a 16-bit number in two's complement, the low one first
unfoldable pub le16 : ℤ → Bytes
le16 (pos n) = (n % 256) ∷ (n / 256 % 256) ∷ []
le16 (negsuc n) = let m = 65536 - suc n in (m % 256) ∷ (m / 256 % 256) ∷ []

-- an unsigned number in two and in four bytes, the low one first
unfoldable pub u16 : ℕ → Bytes
u16 n = (n % 256) ∷ (n / 256 % 256) ∷ []

unfoldable pub u32 : ℕ → Bytes
u32 n = (n % 256) ∷ (n / 256 % 256) ∷ (n / 65536 % 256) ∷ (n / 16777216 % 256) ∷ []

unfoldable pub pcm_bytes : ℕ → List ℤ → Bytes
pcm_bytes unit [] = []
pcm_bytes unit (x ∷ xs) = le16 (quantize unit (clip unit x)) ++ pcm_bytes unit xs

-- The header that `wave` writes for one channel of 16-bit frames, 44 bytes long.
unfoldable pub wav_header : ℕ → ℕ → Bytes
wav_header sr n =
    codes "RIFF"
    ++ (u32 (36 + n)
        ++ (codes "WAVE"
            ++ (codes "fmt "
                ++ (u32 16
                    ++ (u16 1
                        ++ (u16 1
                            ++ (u32 sr
                                ++ (u32 (2 * sr)
                                    ++ (u16 2 ++ (u16 16 ++ (codes "data" ++ u32 n)))))))))))

-- `wave.open(…).writeframes(frames)`
unfoldable pub wav_file : ℕ → Bytes → Bytes
wav_file sr frames = wav_header sr (length frames) ++ frames

-- `_to_wav_bytes`
unfoldable pub to_wav_bytes : ℕ → List ℤ → ℕ → Bytes
to_wav_bytes unit audio sr = wav_file sr (pcm_bytes unit audio)

-- `pcm.astype("<i2").tobytes()` of samples that are 16-bit numbers already
unfoldable pub frames_of : List ℤ → Bytes
frames_of [] = []
frames_of (x ∷ xs) = le16 x ++ frames_of xs

-- `write_wav`: the file's contents
unfoldable pub write_wav : List ℤ → ℕ → Bytes
write_wav pcm sr = wav_file sr (frames_of pcm)
