-- ===== src/Client/Laws.antt =====
-- What the client makes of a stream of responses.
use streaming_tts_serving.Base.{
  ℕ, ◌+◌, ◌-◌, ◌*◌, ◌≤◌, ◌≡◌, refl, ap, max, ◌<◌, ltb, true, false, List, [], ◌∷◌, ◌++◌, map,
  length, arith,
}
use streaming_tts_serving.Base.Int.{ℤ}
use streaming_tts_serving.Base.Text.{Text}
use streaming_tts_serving.Base.Result.{ok, raise}
use streaming_tts_serving.Client.{
  Event, chunk, stream_error, ClientError, timeout, tts_stream, receive, joined, first_arrival,
  stream,
}

-- Chunks as the server sends them, with the times they come in: only the last one is final.
abbrev pub sent : {E : Type 0} → List (ℕ × List ℤ) → (ℕ × List ℤ) → List (ℕ × Event E)
sent [] (t, pcm) = (t, chunk pcm true) ∷ []
sent ((t, pcm) ∷ cs) last = (t, chunk pcm false) ∷ sent cs last

abbrev pub since : ℕ → List (ℕ × List ℤ) → List (ℕ × List ℤ)
since t0 [] = []
since t0 ((t, pcm) ∷ cs) = (t - t0, pcm) ∷ since t0 cs

-- The client waits for each event from the time that it took the one before it; this is that time behind
-- chunks.
abbrev pub waits : ℕ → List (ℕ × List ℤ) → ℕ
waits now [] = now
waits now ((t, pcm) ∷ cs) = waits (max now t) cs

-- Each chunk comes within the 60 seconds that the client waits for it.
abbrev pub Timely : ℕ → List (ℕ × List ℤ) → Type 0
Timely now [] = Unit
Timely now ((t, pcm) ∷ cs) = (t ≤ now + 60000000) × Timely (max now t) cs

in_time : (now t : ℕ) → t ≤ now + 60000000 → ltb (now + 60000000) t ≡ false
in_time now t h = ground arith

receive-sent :
    {E : Type 0} (t0 now : ℕ) (cs : List (ℕ × List ℤ)) (last : ℕ × List ℤ)
    (later : List (ℕ × Event E))
    → Timely now (cs ++ (last ∷ []))
    → receive t0 now (sent cs last ++ later) ≡ ok (since t0 (cs ++ (last ∷ [])))
unfolding receive
receive-sent t0 now [] (t, pcm) later (h, hs) = rw (in_time now t h) refl
receive-sent t0 now ((t, pcm) ∷ cs) last later (h, hs) =
    rw (in_time now t h, receive-sent t0 (max now t) cs last later hs) refl

joined-since : (t0 : ℕ) (cs : List (ℕ × List ℤ)) → joined (since t0 cs) ≡ joined cs
unfolding joined
joined-since t0 [] = refl
joined-since t0 ((t, pcm) ∷ cs) = ap (λ r. pcm ++ r) (joined-since t0 cs)

-- Responses that end with a final chunk, each within 60 seconds of the one before it, give the audio of all their chunks, joined in order, with
-- the time of each from the beginning on, the first of them the time to first audio; what comes
-- behind the final chunk is not looked at.
pub stream-sent :
    {E : Type 0} (t0 t_front t_end : ℕ) (norm : Text) (cs : List (ℕ × List ℤ)) (last : ℕ × List ℤ)
    (later : List (ℕ × Event E))
    → Timely t_front (cs ++ (last ∷ []))
    → stream t0 t_front t_end norm (sent cs last ++ later)
      ≡ ok (record {
        pcm = joined (cs ++ (last ∷ []));
        ttfa = first_arrival (since t0 (cs ++ (last ∷ [])));
        frontend = t_front - t0;
        total = t_end - t0;
        chunk_times = map (λ c. c.0) (since t0 (cs ++ (last ∷ [])));
        chunk_samples = map (λ c. length (c.1)) (since t0 (cs ++ (last ∷ [])));
        normalized_text = norm;
      })
unfolding stream
stream-sent t0 t_front t_end norm cs last later h =
    rw (receive-sent t0 t_front cs last later h, joined-since t0 (cs ++ (last ∷ []))) refl

-- Chunks none of which is final.
abbrev pub unfinished : {E : Type 0} → List (ℕ × List ℤ) → List (ℕ × Event E)
unfinished [] = []
unfinished ((t, pcm) ∷ cs) = (t, chunk pcm false) ∷ unfinished cs

receive-unfinished :
    {E : Type 0} (t0 now : ℕ) (cs : List (ℕ × List ℤ)) (es : List (ℕ × Event E)) (x : ClientError E)
    → Timely now cs
    → receive t0 (waits now cs) es ≡ raise x
    → receive t0 now (unfinished cs ++ es) ≡ raise x
unfolding receive
receive-unfinished t0 now [] es x k h = h
receive-unfinished t0 now ((t, pcm) ∷ cs) es x (k, ks) h =
    rw (in_time now t k, receive-unfinished t0 (max now t) cs es x ks h) refl

receive-late :
    {E : Type 0} (t0 now t : ℕ) (event : Event E) (later : List (ℕ × Event E))
    → now + 60000000 < t
    → receive t0 now ((t, event) ∷ later) ≡ raise timeout
unfolding receive
receive-late t0 now t (chunk pcm final) later h =
    let e : ltb (now + 60000000) t ≡ true = ground arith in rw e refl
receive-late t0 now t (stream_error x) later h =
    let e : ltb (now + 60000000) t ≡ true = ground arith in rw e refl

-- Chunks without the end of their stream are never taken for an utterance. Behind chunks that each came
-- within 60 seconds of the one before, an error within 60 seconds is raised; whatever comes later than
-- that, and nothing at all, is a timeout.
pub stream-unfinished :
    {E : Type 0} (t0 t_front t_end : ℕ) (norm : Text) (cs : List (ℕ × List ℤ)) (t t' : ℕ) (e : E)
    (event : Event E) (later : List (ℕ × Event E))
    → Timely t_front cs
    → t ≤ waits t_front cs + 60000000
    → waits t_front cs + 60000000 < t'
    → (stream t0 t_front t_end norm (unfinished cs ++ ((t, stream_error e) ∷ later))
        ≡ raise (tts_stream e))
      × (stream t0 t_front t_end norm (unfinished cs ++ ((t', event) ∷ later)) ≡ raise timeout)
      × (stream {E = E} t0 t_front t_end norm (unfinished cs ++ []) ≡ raise timeout)
unfolding stream receive
stream-unfinished t0 t_front t_end norm cs t t' e event later k h l =
    let now = waits t_front cs in
    let raised : receive t0 now ((t, stream_error e) ∷ later) ≡ raise (tts_stream e) =
      rw (in_time now t h) refl in
    (
      rw (receive-unfinished t0 t_front cs ((t, stream_error e) ∷ later) (tts_stream e) k raised)
          refl,
      rw
          (receive-unfinished t0 t_front cs ((t', event) ∷ later) timeout k
            (receive-late t0 now t' event later l))
          refl,
      rw (receive-unfinished t0 t_front cs [] timeout k refl) refl,
    )

-- Each chunk comes before the one ahead of it, which came at `t` with `n` samples, could have been
-- played.
abbrev pub Steady : ℕ → ℕ → List ℕ → List ℕ → Type 0
Steady t n [] ns = Unit
Steady t n (u ∷ ts) [] = Unit
Steady t n (u ∷ ts) (m ∷ ns) = (16000 * u ≤ 16000 * t + n * 1000000) × Steady u m ts ns
