-- ===== src/Client.antt =====
-- The streaming client, streaming/client.py: the responses of a stream in the order of the queue, and
-- the account of underruns. Times are microseconds.
pub mod Laws
use streaming_tts_serving.Base.{
  ℕ, zero, suc, ◌+◌, ◌-◌, ◌*◌, Option, none, some, Bool, true, false, List, [], ◌∷◌, ◌++◌, map, max,
  length, ltb, if◌then◌else◌,
}
use streaming_tts_serving.Base.Int.{ℤ}
use streaming_tts_serving.Base.Text.{Text}
use streaming_tts_serving.Base.Result.{Result, ok, raise, ◌>>=◌}

-- What `callback` puts into the queue: a chunk with IS_FINAL, or an error.
pub data Event (E : Type 0) : Type 0 where
  chunk : List ℤ → Bool → Event E
  stream_error : E → Event E

-- `queue.Empty` after the timeout, or the RuntimeError of an error event
pub data ClientError (E : Type 0) : Type 0 where
  timeout : ClientError E
  tts_stream : E → ClientError E

pub record StreamResult : Type 0 where
  pub pcm : List ℤ
  pub ttfa : Option ℕ
  pub frontend : ℕ
  pub total : ℕ
  pub chunk_times : List ℕ
  pub chunk_samples : List ℕ
  pub normalized_text : Text

-- the loop over the queue, whose `get` is called at `now`: the chunks with their arrival, up to the final
-- one. An event that comes more than 60 seconds after the call is not waited for; one that is there
-- already is taken at once.
unfoldable pub receive :
    {E : Type 0} → ℕ → ℕ → List (ℕ × Event E) → Result (ClientError E) (List (ℕ × List ℤ))
receive t0 now [] = raise timeout
receive t0 now ((ts, stream_error e) ∷ es) =
    if ltb (now + 60000000) ts then raise timeout else raise (tts_stream e)
receive t0 now ((ts, chunk pcm final) ∷ es) =
    let rest = receive t0 (max now ts) es in
    if ltb (now + 60000000) ts
    then raise timeout
    else if final
    then ok ((ts - t0, pcm) ∷ [])
    else (do r ← rest; ok ((ts - t0, pcm) ∷ r))

-- `np.concatenate`
unfoldable pub joined : List (ℕ × List ℤ) → List ℤ
joined [] = []
joined ((t, pcm) ∷ cs) = pcm ++ joined cs

unfoldable pub first_arrival : List (ℕ × List ℤ) → Option ℕ
first_arrival [] = none
first_arrival ((t, pcm) ∷ cs) = some t

-- `stream`, where the two front hops end at `t_front` with the text `norm`, where the loop
-- begins, and the loop ends at `t_end`
unfoldable pub stream :
    {E : Type 0} → ℕ → ℕ → ℕ → Text → List (ℕ × Event E) → Result (ClientError E) StreamResult
stream t0 t_front t_end norm events = do
  chunks ← receive t0 t_front events
  ok (record {
    pcm = joined chunks;
    ttfa = first_arrival chunks;
    frontend = t_front - t0;
    total = t_end - t0;
    chunk_times = map (λ c. c.0) chunks;
    chunk_samples = map (λ c. length (c.1)) chunks;
    normalized_text = norm;
  })

-- the loop of `main` over the chunks: those that arrive after the audio before them has been played.
-- `played` counts samples, of which a second has 16000.
unfoldable pub underruns : ℕ → ℕ → List ℕ → List ℕ → ℕ
underruns ttfa played [] ns = 0
underruns ttfa played (t ∷ ts) [] = 0
underruns ttfa played (t ∷ ts) (n ∷ ns) =
    let late = ltb (16000 * ttfa + played * 1000000) (16000 * t) in
    (if late then 1 else 0) + underruns ttfa (played + n) ts ns
