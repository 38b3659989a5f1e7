-- ===== src/Examples/Measuring.antt =====
-- The percentiles, the load driver and the timed decodes at concrete inputs.
use streaming_tts_serving.Base.{
  ℕ, ◌+◌, ◌*◌, ◌≤◌, ◌<◌, ◌≡◌, refl, true, false, none, some, List, [], ◌∷◌, length, arith,
  replicate,
}
use streaming_tts_serving.Percentile.{insert, sorted, rank, pct}
use streaming_tts_serving.Percentile.Laws.{count, equal_to, at_most, below, pct-share}
use streaming_tts_serving.Chunked.{round}
use streaming_tts_serving.Loadtest.{Reply, answered, elapsed, Sample, Summary, run_level}
use streaming_tts_serving.Loadtest.Level.{run_level-short}

abbrev times : List ℕ
times = 40 ∷ 10 ∷ 30 ∷ 20 ∷ []

pct-share_example :
    (v : ℕ) × ((pct times 50 ≡ some v)
      × ((0 < count (equal_to v) times)
          × ((50 * length times ≤ 100 * count (at_most v) times)
              × (100 * count (below v) times ≤ 50 * length times))))
pct-share_example = pct-share times 50 (omega arith) (omega arith)

median : pct times 50 ≡ some 20
unfolding pct sorted insert rank round
median = refl

-- Of two samples the median is the larger one: the rank is one more than the nearest rank.
pair_median : pct (10 ∷ 20 ∷ []) 50 ≡ some 20
unfolding pct sorted insert rank round
pair_median = refl

high : pct times 90 ≡ some 40
unfolding pct sorted insert rank round
high = refl

abbrev server : ℕ → Reply
server n = answered 200 (replicate 100 0) (900 + n)

server_takes : (i : ℕ) → 0 < elapsed (server i)
unfolding elapsed
server_takes i = omega arith

run_level-short_example :
    ((r : Summary) × (run_level 3000000 2000000 50 (server ∷ server ∷ []) ≡ some r)
      × (r.requests ≡ 0)
      × (r.collapsed ≡ true))
    × (run_level 3000000 0 50 (server ∷ server ∷ []) ≡ none)
run_level-short_example =
    run_level-short 3000000 2000000 50 server (server ∷ []) (server_takes, (server_takes, tt))
      (omega arith) (omega arith) (omega arith)

abbrev samples : List Sample
samples =
    record { latency = 900; audio = 56; is_ok = true; status = 200 }
    ∷ record { latency = 400; audio = 0; is_ok = false; status = 0 }
    ∷ record { latency = 700; audio = 56; is_ok = true; status = 200 }
    ∷ []
