-- ===== src/Examples/Text.antt =====
-- Text normalization, splitting, the incremental synthesizer and the text front end at concrete inputs.
use streaming_tts_serving.Base.{
  ℕ, ◌+◌, ◌≡◌, inl, refl, none, some, List, [], ◌∷◌, All, take, ◌++◌, length, arith,
}
use streaming_tts_serving.Base.Result.{Result, ok}
use streaming_tts_serving.Base.Text.{Text, codes, solid, is_digit}
use streaming_tts_serving.Base.Utf8.{encode, encode_char}
use streaming_tts_serving.TextNorm.{normalize}
use streaming_tts_serving.TextNorm.Tests.{program}
use streaming_tts_serving.TextNorm.Words.{Inflect}
use streaming_tts_serving.TextNorm.NoDigits.{NoDigits, Wordy, normalize-NoDigits}
use streaming_tts_serving.TextNorm.Split.{split_for_streaming}
use streaming_tts_serving.TextNorm.Split.Laws.{
  solids, solids-split_for_streaming, LongButLast, split_for_streaming-LongButLast,
}
use streaming_tts_serving.Base.Utf8.{IsScalar}
use streaming_tts_serving.Startup.{frontend}
use streaming_tts_serving.Startup.Laws.{spoken, frontend-spoken}
use streaming_tts_serving.Incremental.{Synthesizer, init, stream_reply, synth}
use streaming_tts_serving.Incremental.Content.{texts, pushed, stream_reply-heard}
use streaming_tts_serving.Incremental.Cache.{Keeps, init-IsValid, synth-Keeps}
use streaming_tts_serving.Incremental.Order.{keys, newest, recency}
use streaming_tts_serving.Incremental.Recent.{asked, stream_reply-newest}
use streaming_tts_serving.Incremental.Emits.{Emits, stream_reply-Emits}
use streaming_tts_serving.Frontend.Text.{chars, Encoding, read_text, tokenize, one_normalized, one}

abbrev words : Inflect
words = record {
  number_to_words = λ n. codes "many";
  ordinal = λ n. codes "th";
  text_to_words = λ s. codes "first";
}

words-Wordy : Wordy words
unfolding is_digit
words-Wordy = record { words = λ n. record { free = (refl, (refl, (refl, (refl, tt)))) } }

abbrev order : Text
order = codes "Pay $5 by 9:30, Dr. Lee."

normalize-NoDigits_example : NoDigits (normalize (some words) order)
normalize-NoDigits_example = normalize-NoDigits words order words-Wordy

abbrev reply : Text
reply = codes "Sure! I can help you with that today. Now?"

solids-split_for_streaming_example : solids (split_for_streaming 24 reply) ≡ solid reply
solids-split_for_streaming_example = solids-split_for_streaming 24 reply

split_for_streaming-LongButLast_example : LongButLast 24 (split_for_streaming 24 reply)
split_for_streaming-LongButLast_example = split_for_streaming-LongButLast 24 reply

abbrev latents_fn : ℕ → Text → ℕ
latents_fn n clause = n + length clause

abbrev start : Synthesizer ℕ
start = init 2 24

stream_reply-heard_example :
    (solids (texts (stream_reply (some words) latents_fn start (reply ∷ order ∷ [])).1)
      ≡ solid start.buf ++ pushed (reply ∷ order ∷ []))
    × ((stream_reply (some words) latents_fn start (reply ∷ order ∷ [])).0.buf ≡ [])
stream_reply-heard_example = stream_reply-heard (some words) latents_fn start (reply ∷ order ∷ [])

synth-Keeps_example :
    Keeps
      (some words)
      latents_fn
      start
      reply
      (synth (some words) latents_fn start reply).0
      (synth (some words) latents_fn start reply).1
      (synth (some words) latents_fn start reply).2
synth-Keeps_example =
    synth-Keeps (some words) latents_fn start reply (init-IsValid (some words) latents_fn 2 24)

stream_reply-Emits_example :
    Emits
      (some words)
      latents_fn
      start
      (stream_reply (some words) latents_fn start (reply ∷ order ∷ []))
stream_reply-Emits_example =
    stream_reply-Emits (some words) latents_fn start (reply ∷ order ∷ [])
      (init-IsValid (some words) latents_fn 2 24)

abbrev replies : List Text
replies = reply ∷ order ∷ reply ∷ []

stream_reply-newest_example :
    keys (stream_reply (some words) latents_fn (init 2 24) replies).0.cache
    ≡ newest 2 (
        recency [] (
          asked
            (some words)
            latents_fn
            (stream_reply (some words) latents_fn (init 2 24) replies).1))
stream_reply-newest_example = stream_reply-newest (some words) latents_fn 2 24 replies

abbrev tok : Text → Result ℕ Encoding
tok s = ok (record { input_ids = s; attention_mask = none })

abbrev hi : Text
hi = codes "Hi"

hi_tensors :
    one (some words) tok 500 (chars hi ∷ [])
    ≡ ok (record { input_ids = hi; attention_mask = 1 ∷ 1 ∷ []; normalized_text = encode hi })
unfolding program one read_text tokenize one_normalized encode encode_char
hi_tensors = refl

hi-IsScalar : All IsScalar hi
hi-IsScalar = ((omega arith, inl (omega arith)), ((omega arith, inl (omega arith)), tt))

hi_normalized : normalize (some words) (take 500 hi) ≡ hi
unfolding program
hi_normalized = refl

frontend-spoken_example :
    frontend (one (some words) tok 500) hi
    ≡ spoken (normalize (some words) (take 500 hi)) (tok (normalize (some words) (take 500 hi)))
frontend-spoken_example =
    frontend-spoken (some words) tok 500 hi hi-IsScalar (rw hi_normalized hi-IsScalar)
