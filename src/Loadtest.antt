-- ===== src/Loadtest.antt =====
-- The load driver, baseline/loadtest.py. Times are whole microseconds; the replies of the server, with
-- the time that each takes, are a parameter.
pub mod Ramp
pub mod Level
use streaming_tts_serving.Base.{
  ℕ, zero, suc, ◌+◌, ◌-◌, ◌*◌, max, Option, none, some, Bool, true, false, not, List, [], ◌∷◌, ◌++◌,
  map, length, ltb, ◌==◌, if◌then◌else◌,
}
use streaming_tts_serving.Base.Text.{Text, codes, strip, starts_with}
use streaming_tts_serving.Audio.{Bytes}
use streaming_tts_serving.Chunked.{round}
use streaming_tts_serving.Percentile.{pct}

-- What `session.post` ends in, with the time it took: a status and a body, or an exception.
pub data Reply : Type 0 where
  answered : ℕ → Bytes → ℕ → Reply
  failed : ℕ → Reply

unfoldable pub elapsed : Reply → ℕ
elapsed (answered status body dt) = dt
elapsed (failed dt) = dt

-- `audio` counts the bytes of audio: 32000 for each of the source's seconds.
pub record Sample : Type 0 where
  pub latency : ℕ
  pub audio : ℕ
  pub is_ok : Bool
  pub status : ℕ

-- the lines that `load_corpus` keeps of a file, or the default where there is no file
unfoldable pub kept_lines : List Text → List Text
kept_lines [] = []
kept_lines (l ∷ ls) =
    let rest = kept_lines ls in
    let s = strip l in
    if length s == 0 then rest else (if starts_with (codes "#") s then rest else s ∷ rest)

unfoldable pub load_corpus : Option (List Text) → List Text
load_corpus none = codes "The quick brown fox jumps over the lazy dog." ∷ []
load_corpus (some ls) = kept_lines ls

unfoldable pub one_request : Reply → Sample
one_request (answered status body dt) = record {
  latency = dt;
  audio = max 0 (length body - 44);
  is_ok = status == 200;
  status = status;
}
one_request (failed dt) = record { latency = dt; audio = 0; is_ok = false; status = 0 }

-- `worker`: the samples it appends, the time at its end, and the number of requests it has sent.
-- The fuel bounds the rounds of the loop.
unfoldable pub worker : ℕ → ℕ → (ℕ → Reply) → ℕ → ℕ → List Sample × (ℕ × ℕ)
worker zero until replies now i = ([], (now, i))
worker (suc fuel) until replies now i =
    let (rest, done) = worker fuel until replies (now + elapsed (replies i)) (i + 1) in
    if ltb now until then (one_request (replies i) ∷ rest, done) else ([], (now, i))

-- `asyncio.gather` of the workers, each with its replies and the number it has had: the samples, the
-- time at which the last one ends, and the workers as they are then
unfoldable pub gather :
    ℕ → ℕ → ℕ → List ((ℕ → Reply) × ℕ) → List Sample × (ℕ × List ((ℕ → Reply) × ℕ))
gather fuel until now [] = ([], (now, []))
gather fuel until now ((replies, i) ∷ ws) =
    let (own, (end, j)) = worker fuel until replies now i in
    let (rest, (last, later)) = gather fuel until now ws in
    (own ++ rest, (max end last, (replies, j) ∷ later))

pub record Summary : Type 0 where
  pub concurrency : ℕ
  pub requests : ℕ
  pub completions : ℕ
  pub errors : ℕ
  pub collapsed : Bool
  pub throughput_rps : ℕ
  pub aggregate_rtf : ℕ
  pub p50 : Option ℕ
  pub p90 : Option ℕ
  pub p99 : Option ℕ
  pub max_ms : Option ℕ
  pub mean_ms : Option ℕ

unfoldable pub completed : List Sample → List Sample
completed [] = []
completed (s ∷ ss) = let rest = completed ss in if s.is_ok then s ∷ rest else rest

unfoldable pub total : List ℕ → ℕ
total [] = 0
total (x ∷ xs) = x + total xs

unfoldable pub largest : List ℕ → ℕ
largest [] = 0
largest (x ∷ xs) = max x (largest xs)

-- microseconds as tenths of a millisecond, `round(…, 1)`
unfoldable pub tenths : Option ℕ → Option ℕ
tenths none = none
tenths (some n) = some (round n 100)

unfoldable pub where_any : List ℕ → ℕ → Option ℕ
where_any [] n = none
where_any (x ∷ xs) n = some n

-- The numbers of a level. Those per second of wall time are hundredths, `round(…, 2)`.
unfoldable pub numbers : ℕ → ℕ → List Sample → Summary
numbers concurrency wall samples =
    let ok_ = completed samples in
    let lat = map (λ s. s.latency) ok_ in
    record {
      concurrency = concurrency;
      requests = length samples;
      completions = length ok_;
      errors = length samples - length ok_;
      collapsed = length ok_ == 0;
      throughput_rps = round (length ok_ * 100000000) wall;
      aggregate_rtf = round (total (map (λ s. s.audio) ok_) * 3125) wall;
      p50 = tenths (pct lat 50);
      p90 = tenths (pct lat 90);
      p99 = tenths (pct lat 99);
      max_ms = tenths (where_any lat (largest lat));
      mean_ms = where_any lat (round (total lat) (100 * length lat));
    }

-- The numbers are divided by the wall time, which raises ZeroDivisionError where that is 0.
unfoldable pub summary : ℕ → ℕ → List Sample → Option Summary
summary concurrency wall samples =
    if wall == 0 then none else some (numbers concurrency wall samples)

-- `run_level`, begun at `t0`: three seconds of warming up, then the samples until the time that was
-- set at the beginning
unfoldable pub run_level : ℕ → ℕ → ℕ → List (ℕ → Reply) → Option Summary
run_level fuel duration t0 servers =
    let stop_at = t0 + duration in
    let (warm, (t1, ws)) = gather fuel (t0 + 3000000) t0 (map (λ s. (s, 0)) servers) in
    let (samples, end) = gather fuel stop_at t1 ws in summary (length servers) duration samples

-- more than one fifth of the requests failed
unfoldable pub too_many_errors : Summary → Bool
too_many_errors r = ltb (r.requests) (5 * r.errors)

unfoldable pub is_broken : Summary → Bool
is_broken r = if r.collapsed then true else too_many_errors r

-- the loop of `main` over the levels, up to the first that is broken, for a duration with which no level
-- raises
unfoldable pub ramp : {S : Type 0} → (ℕ → S → Summary × S) → List ℕ → S → List Summary
ramp run [] s = []
ramp run (c ∷ cs) s =
    let (r, s') = run c s in let rest = ramp run cs s' in if is_broken r then r ∷ [] else r ∷ rest
