-- ===== src/Server.antt =====
-- The baseline server, baseline/server.py: requests, the model they share, and their replies.
-- The tokenizer and the model's forward pass are parameters; a pass draws from the random generator that
-- all passes share. What a request does between two points where another one may run is a turn of its
-- thread, and a forward pass is one turn.
pub mod Race
use streaming_tts_serving.Base.{
  ℕ, zero, suc, ◌+◌, Option, none, some, Bool, true, false, List, [], ◌∷◌, ◌++◌, map, length,
  get_elem?, set, ltb, leb, ◌&&◌, if◌then◌else◌,
}
use streaming_tts_serving.Base.Int.{ℤ}
use streaming_tts_serving.Base.Text.{Text}
use streaming_tts_serving.Base.Result.{Result, ok, raise}
use streaming_tts_serving.Audio.{Bytes, to_wav_bytes}

-- `SynthRequest`; the speaking rate is in thousandths.
pub record SynthRequest : Type 0 where
  pub text : Text
  pub speaking_rate : ℕ

-- the bounds of the fields: 1 to 2000 characters, and a rate between 0.25 and 4.0
unfoldable pub is_accepted : SynthRequest → Bool
is_accepted q =
    (leb 1 (length q.text) && leb (length q.text) 2000)
    && (ltb 250 q.speaking_rate && ltb q.speaking_rate 4000)

pub data Response (E : Type 0) : Type 0 where
  wav : Bytes → Response E
  internal_error : E → Response E

-- A request in `_synthesize`: before the tokenizer, before its rate is written to the model, before
-- the forward pass, and when it has its response.
pub data Thread (E Ids : Type 0) : Type 0 where
  arrived : SynthRequest → Thread E Ids
  tokenized : Ids → ℕ → Thread E Ids
  rated : Ids → Thread E Ids
  replied : Response E → Thread E Ids

-- The speaking rate that the model holds, and the random generator that its forward passes draw from.
pub record Shared (G : Type 0) : Type 0 where
  pub rate : ℕ
  pub generator : G

module _ {E Ids G : Type 0} (unit sr : ℕ) (tok : Text → Result E Ids)
    (model : ℕ → Ids → G → Result E (List ℤ) × G) where
  -- the forward pass at a rate, the WAV bytes, and what the handler makes of them; the draws of the pass
  -- leave the generator in another state
  unfoldable pub forward : ℕ → Ids → G → Response E × G
  forward rate ids g =
      let out = model rate ids g in
      (
        elim out.0 [ ok audio ↦ wav (to_wav_bytes unit audio sr) | raise e ↦ internal_error e ],
        out.1,
      )

  -- one turn of a thread, with what the threads share before and after it
  unfoldable pub advance : Thread E Ids → Shared G → Thread E Ids × Shared G
  advance (arrived q) s = elim (tok q.text) [
    | ok ids ↦ (tokenized ids q.speaking_rate, s)
    | raise e ↦ (replied (internal_error e), s)
  ]
  advance (tokenized ids own) s = (rated ids, record s { rate = own })
  advance (rated ids) s =
      let out = forward s.rate ids s.generator in (replied (out.0), record s { generator = out.1 })
  advance (replied r) s = (replied r, s)

  -- the turns of a schedule, which names the thread of each
  unfoldable pub run : List ℕ → List (Thread E Ids) → Shared G → List (Thread E Ids) × Shared G
  run [] ts s = (ts, s)
  run (i ∷ is) ts s = elim (get_elem? ts i) [
    | none ↦ run is ts s
    | some t ↦ (let (t', s') = advance t s in run is (set ts i t') s')
  ]

  -- `synthesize` in the mode `async_blocking`: no other request runs before it ends
  unfoldable pub synthesize : SynthRequest → Shared G → Response E × Shared G
  synthesize q s = elim (tok q.text) [
    | ok ids ↦
        let out = forward q.speaking_rate ids s.generator in
        (out.0, record { rate = q.speaking_rate; generator = out.1 })
    | raise e ↦ (internal_error e, s)
  ]
