-- ===== src/Examples/Serving.antt =====
-- The latent batches, the alignment, the runner, the server and the client at concrete inputs.
use streaming_tts_serving.Base.{
  ℕ, suc, ◌+◌, ◌-◌, ◌*◌, ◌≡◌, refl, Bool, none, some, List, [], ◌∷◌, ◌++◌, All, length, arith, map,
  get_elem?, get_or, inl, inr, ◌==◌, ltb, if◌then◌else◌,
}
use streaming_tts_serving.Base.Int.{ℤ, pos}
use streaming_tts_serving.Base.Result.{Result, ok, raise}
use streaming_tts_serving.Base.Text.{Text, codes, text_eq}
use streaming_tts_serving.Frontend.Latents.{Rows, mask_of, execute}
use streaming_tts_serving.Frontend.Latents.Padding.{Utterance, Masked, request}
use streaming_tts_serving.Frontend.Latents.Laws.{AllTrimmed, execute-Trimmed}
use streaming_tts_serving.Alignment.{Additive, Token, over, expand}
use streaming_tts_serving.Alignment.Laws.{IsMasked, repeated, expand-repeated}
use streaming_tts_serving.Runner.{
  Shape, Tensor, input, output, is_in_profile, within, set_input_shape, feed, call,
}
use streaming_tts_serving.Runner.Laws.{Taken, call-Taken}
use streaming_tts_serving.Server.{
  SynthRequest, Thread, Shared, arrived, tokenized, rated, replied, forward, run,
}
use streaming_tts_serving.Server.Race.{run-race}
use streaming_tts_serving.Client.{stream_error, joined, first_arrival, stream, tts_stream, timeout}
use streaming_tts_serving.Client.Laws.{sent, since, stream-sent, unfinished, stream-unfinished}

abbrev is_silent : ℕ → Bool
is_silent n = n == 0

-- one draw of a network: two rows, the second with silence behind its two frames
abbrev drawn : List (List ℕ)
drawn = (14 ∷ 0 ∷ 15 ∷ 16 ∷ []) ∷ (17 ∷ 3 ∷ 0 ∷ 0 ∷ []) ∷ []

abbrev latents_of : Rows → Rows → Result ℕ (List (List ℕ))
latents_of ids masks = ok drawn

abbrev two : List Utterance
two = (4 ∷ 5 ∷ 6 ∷ [], none) ∷ (7 ∷ [], some (1 ∷ [])) ∷ []

two-Masked : All Masked two
unfolding mask_of
two-Masked = (record { mask_lem = refl }, (record { mask_lem = refl }, tt))

execute-Trimmed_example :
    AllTrimmed is_silent drawn (execute is_silent latents_of (map request two))
execute-Trimmed_example =
    execute-Trimmed is_silent latents_of (4 ∷ 5 ∷ 6 ∷ [], none) ((7 ∷ [], some (1 ∷ [])) ∷ []) drawn
      two-Masked refl refl

abbrev pub sums : Additive ℕ
sums = record {
  silence = 0;
  add = λ x y. x + y;
  add_silence = λ x. omega arith;
  silence_add = λ x. omega arith;
}

abbrev pub tokens : List (Token ℕ)
tokens =
    record { mask = 1; frames = 2; mean = 7 }
    ∷ record { mask = 1; frames = 3; mean = 8 }
    ∷ record { mask = 0; frames = 4; mean = 9 }
    ∷ []

tokens-IsMasked : All IsMasked tokens
tokens-IsMasked =
    (record { bit = inr refl }, (record { bit = inr refl }, (record { bit = inl refl }, tt)))

expand-repeated_example :
    expand sums 6 5 tokens
    ≡ over 0 6 (λ t. if ltb t 5 then get_or (repeated tokens) t sums.silence else sums.silence)
expand-repeated_example = expand-repeated sums 6 5 tokens tokens-IsMasked

abbrev pub flow : List (List ℕ) → List (List ℕ) → List (List ℕ)
flow z m = z

abbrev engine : List Tensor
engine = input (codes "z") (1 ∷ 16 ∷ []) (8 ∷ 2048 ∷ []) ∷ output (codes "y") ∷ []

abbrev feeds : List (Text × Shape)
feeds = (codes "z", 1 ∷ 40 ∷ []) ∷ []

engine_run :
    (call engine ((codes "z", 1 ∷ 16 ∷ []) ∷ []) feeds).1
    ≡ ok ((codes "z", 1 ∷ 40 ∷ []) ∷ (codes "z", 1 ∷ 16 ∷ []) ∷ [])
unfolding call feed set_input_shape is_in_profile within text_eq
engine_run = refl

call-Taken_example : Taken engine ((codes "z", 1 ∷ 40 ∷ []) ∷ (codes "z", 1 ∷ 16 ∷ []) ∷ []) feeds
call-Taken_example =
    call-Taken engine ((codes "z", 1 ∷ 16 ∷ []) ∷ [])
      ((codes "z", 1 ∷ 40 ∷ []) ∷ (codes "z", 1 ∷ 16 ∷ []) ∷ []) feeds (tt, tt) engine_run

abbrev tok : Text → Result ℕ (List ℕ)
tok s = ok s

-- A generator is a number here, which a pass adds to its samples.
abbrev model : ℕ → List ℕ → ℕ → Result ℕ (List ℤ) × ℕ
model rate ids g = (ok (map (λ n. pos (n * rate + g)) ids), suc g)

abbrev shared : Shared ℕ
shared = record { rate = 500; generator = 3 }

abbrev slow : SynthRequest
slow = record { text = codes "a"; speaking_rate = 1000 }

abbrev slow' : SynthRequest
slow' = record { text = codes "bc"; speaking_rate = 1000 }

abbrev fast : SynthRequest
fast = record { text = codes "d"; speaking_rate = 2000 }

abbrev turns : List ℕ
turns = 0 ∷ 1 ∷ 0 ∷ 1 ∷ 0 ∷ 1 ∷ []

-- three threads, the first before its forward pass, the third before its write
abbrev threads : List (Thread ℕ (List ℕ))
threads = rated (codes "a") ∷ arrived slow ∷ tokenized (codes "d") 2000 ∷ []

run-race_example :
    get_elem? (run 100000 16000 tok model (2 ∷ 0 ∷ 1 ∷ 2 ∷ 0 ∷ []) threads shared).0 0
    ≡ some (replied (forward 100000 16000 tok model 2000 (codes "a") 3).0)
run-race_example =
    run-race 100000 16000 tok model threads 0 2 2000 (codes "a") (codes "d") (1 ∷ 2 ∷ 0 ∷ []) shared
      (λ e. absurd (omega (arith, e))) refl refl

abbrev heard : List (ℕ × List ℤ)
heard = (1200, pos 1 ∷ pos 2 ∷ []) ∷ []

-- the last chunk comes 50 seconds behind the first
abbrev last : ℕ × List ℤ
last = (50001200, pos 3 ∷ [])

stream-sent_example :
    stream {E = ℕ} 1000 1100 50001300
      (codes "hi")
      (sent heard last ++ ((50001250, stream_error 7) ∷ []))
    ≡ ok (record {
      pcm = joined (heard ++ (last ∷ []));
      ttfa = first_arrival (since 1000 (heard ++ (last ∷ [])));
      frontend = 1100 - 1000;
      total = 50001300 - 1000;
      chunk_times = map (λ c. c.0) (since 1000 (heard ++ (last ∷ [])));
      chunk_samples = map (λ c. length (c.1)) (since 1000 (heard ++ (last ∷ [])));
      normalized_text = codes "hi";
    })
stream-sent_example =
    stream-sent 1000 1100 50001300 (codes "hi") heard last ((50001250, stream_error 7) ∷ [])
      (omega arith, (omega arith, tt))

stream-unfinished_example :
    (stream {E = ℕ} 1000 1100 1400 (codes "hi") (unfinished heard ++ ((1500, stream_error 7) ∷ []))
      ≡ raise (tts_stream 7))
    × (stream {E = ℕ} 1000 1100 1400
          (codes "hi")
          (unfinished heard ++ ((70001500, stream_error 7) ∷ []))
        ≡ raise timeout)
    × (stream {E = ℕ} 1000 1100 1400 (codes "hi") (unfinished heard ++ []) ≡ raise timeout)
stream-unfinished_example =
    stream-unfinished 1000 1100 1400 (codes "hi") heard 1500 70001500 7 (stream_error 7) []
      (omega arith, tt) (omega arith) (omega arith)
