-- ===== src/Examples/Sweeping.antt =====
-- The sweeps and the export at concrete inputs.
use streaming_tts_serving.Base.{
  ℕ, suc, ◌+◌, ◌≡◌, ◌==◌, if◌then◌else◌, List, [], ◌∷◌, ◌&&◌, leb, length, true, refl, arith,
}
use streaming_tts_serving.Base.Int.{ℤ, pos}
use streaming_tts_serving.Alignment.{over}
use streaming_tts_serving.Listening.{chunked_trt}
use streaming_tts_serving.Listening.Laws.{Takes, chunked_trt_lem}
use streaming_tts_serving.Base.Result.{Result, ok, raise}
use streaming_tts_serving.Export.{
  Draws, Torch, real, Pass, result, failure, call_randn, call_randn_like, reference,
}
use streaming_tts_serving.Export.Noise.{pure_pass, reference_lem}
use streaming_tts_serving.Examples.Chunks.{twice, twice-Local}

-- A tensor is a number here, and so is a seed.
abbrev draws : Draws ℕ ℕ
draws = record {
  shape_of = λ t. t ∷ [];
  sample = λ shape seed. (seed, suc seed);
  like = λ t other. t;
}

-- a predictor that draws twice, and raises where the second number is 5
abbrev predictor : ℕ → ℕ → Pass ℕ ℕ ℕ
predictor h m =
    call_randn (1 ∷ 2 ∷ h ∷ [])
      (λ a. call_randn_like m (λ b. if b == 5 then failure a else result (a + b)))

abbrev torch : Torch ℕ
torch = record { randn = real; randn_like = real }

reference_lem_example :
    reference draws predictor 3 4 5 torch 9 ≡ (torch, (pure_pass draws (predictor 3 4) 5, 9))
reference_lem_example = reference_lem draws predictor 3 4 5 torch 9

abbrev session : ℕ → List ℤ
session noise = pos 4 ∷ pos 7 ∷ []

-- an utterance of three pieces
abbrev hundred : List ℕ
hundred = over 0 110 (λ t. t)

-- an engine that refuses what its profile does not hold
abbrev engine : List ℕ → Result ℕ (List ℕ)
engine z = if leb 14 (length z) && leb (length z) 76 then ok (twice z) else raise (length z)

engine-Takes : Takes engine twice
engine-Takes zs h h' =
    let least : leb 14 (length zs) ≡ true = ground arith in
    let most : leb (length zs) 76 ≡ true = ground arith in rw (least, most) refl

chunked_trt_lem_example : chunked_trt engine hundred 2 ≡ ok (twice hundred)
unfolding over
chunked_trt_lem_example =
    chunked_trt_lem engine twice 2 0 hundred twice-Local engine-Takes (omega arith) (omega arith)
