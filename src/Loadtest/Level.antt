-- ===== src/Loadtest/Level.antt =====
-- The numbers of one level of load.
use streaming_tts_serving.Base.{
  ℕ, zero, suc, ◌+◌, ◌≤◌, ◌<◌, ◌≡◌, refl, ap, ap₂, All, Option, none, some, true, false, List, [],
  ◌∷◌, ◌++◌, map, length, ltb, ◌==◌, Bool-cases, inl, inr, arith,
}
use streaming_tts_serving.Chunked.{round}
use streaming_tts_serving.Percentile.{pct}
use streaming_tts_serving.Percentile.Laws.{count, equal_to, pct-share, pct_mono}
use streaming_tts_serving.Loadtest.{
  Reply, elapsed, Sample, worker, gather, completed, largest, tenths, where_any, Summary, numbers,
  summary, run_level,
}

-- A worker whose requests each take some time stops, at or behind the time it was given, with as
-- much fuel as there are microseconds until then.
pub worker-stops :
    (replies : ℕ → Reply)
    → ((i : ℕ) → 0 < elapsed (replies i))
    → (fuel until now i : ℕ) → until ≤ now + fuel
    → until ≤ (worker fuel until replies now i).1.0
unfolding worker
worker-stops replies pos zero until now i h = omega arith
worker-stops replies pos (suc fuel) until now i h =
    let rest =
      worker-stops replies pos fuel until (now + elapsed (replies i)) (i + 1)
        (omega (arith, pos i)) in
    elim (Bool-cases (ltb now until)) [
      | inl e ↦ rw e rest
      | inr e ↦ let late : until ≤ now = ground arith in rw e late
    ]

worker-late :
    (replies : ℕ → Reply) (fuel until now i : ℕ)
    → until ≤ now
    → worker fuel until replies now i ≡ ([], (now, i))
unfolding worker
worker-late replies zero until now i h = refl
worker-late replies (suc fuel) until now i h =
    let e : ltb now until ≡ false = ground arith in rw e refl

-- Each request of each worker takes some time.
abbrev pub AllTake : List ((ℕ → Reply) × ℕ) → Type 0
AllTake ws = All (λ w. (i : ℕ) → 0 < elapsed (w.0 i)) ws

gather-stops :
    (fuel until now : ℕ) (w : (ℕ → Reply) × ℕ) (ws : List ((ℕ → Reply) × ℕ))
    → AllTake (w ∷ ws)
    → until ≤ now + fuel
    → until ≤ (gather fuel until now (w ∷ ws)).1.0
unfolding gather
gather-stops fuel until now (replies, i) ws (p, ps) h =
    let stops = worker-stops replies p fuel until now i h in omega arith

gather-late :
    (fuel until now : ℕ) (ws : List ((ℕ → Reply) × ℕ))
    → until ≤ now
    → (gather fuel until now ws).0 ≡ []
unfolding gather
gather-late fuel until now [] h = refl
gather-late fuel until now ((replies, i) ∷ ws) h =
    ap₂ (λ a b. a.0 ++ b) (worker-late replies fuel until now i h) (gather-late fuel until now ws h)

paired :
    (servers : List (ℕ → Reply))
    → All (λ r. (i : ℕ) → 0 < elapsed (r i)) servers
    → AllTake (map (λ r. (r, 0)) servers)
paired [] p = tt
paired (s ∷ ss) (p, ps) = (p, paired ss ps)

empty_numbers :
    (c wall : ℕ) → ((numbers c wall []).requests ≡ 0) × ((numbers c wall []).collapsed ≡ true)
unfolding numbers completed
empty_numbers c wall = (refl, refl)

by_fuel : (t0 fuel : ℕ) → 3000000 ≤ fuel → t0 + 3000000 ≤ t0 + fuel
by_fuel t0 fuel h = omega arith

-- A level that is given three seconds or less, the length of its warming up, counts no request
-- and is reported as collapsed, whatever the server answers, where each request takes some time and the
-- duration is not 0; a duration of 0 gives no report, since the rates are divided by it.
pub run_level-short :
    (fuel duration t0 : ℕ) (s : ℕ → Reply) (servers : List (ℕ → Reply))
    → All (λ r. (i : ℕ) → 0 < elapsed (r i)) (s ∷ servers)
    → 0 < duration
    → duration ≤ 3000000
    → 3000000 ≤ fuel
    → ((r : Summary) × (run_level fuel duration t0 (s ∷ servers) ≡ some r)
        × (r.requests ≡ 0)
        × (r.collapsed ≡ true))
      × (run_level fuel 0 t0 (s ∷ servers) ≡ none)
unfolding run_level summary
run_level-short fuel duration t0 s servers p d h f =
    let g = gather fuel (t0 + 3000000) t0 (map (λ r. (r, 0)) (s ∷ servers)) in
    let stops =
      gather-stops fuel (t0 + 3000000) t0 (s, 0) (map (λ r. (r, 0)) servers)
        (paired (s ∷ servers) p) (by_fuel t0 fuel f) in
    let e : (gather fuel (t0 + duration) (g.1.0) (g.1.1)).0 ≡ [] =
      gather-late fuel (t0 + duration) (g.1.0) (g.1.1) (omega (arith, stops)) in
    let some_time : (duration == 0) ≡ false = ground arith in
    let (none_counted, called) = empty_numbers (length (s ∷ servers)) duration in
    (
      (
        numbers (length (s ∷ servers)) duration [],
        rw some_time (ap (λ t. some (numbers (length (s ∷ servers)) duration t)) e),
        none_counted,
        called,
      ),
      refl,
    )

completed-le : (ss : List Sample) → length (completed ss) ≤ length ss
unfolding completed
completed-le [] = omega arith
completed-le (s ∷ ss) = let rest = completed-le ss in ground arith

equal-le : (xs : List ℕ) (v : ℕ) → 0 < count (equal_to v) xs → v ≤ largest xs
unfolding largest
equal-le [] v h = absurd (omega arith)
equal-le (x ∷ xs) v h =
    let rest : 0 < count (equal_to v) xs → v ≤ largest xs = equal-le xs v in ground arith

-- `a` is a number and at most `b`, or both are missing.
abbrev pub Below : Option ℕ → Option ℕ → Type 0
Below none none = Unit
Below (some a) (some b) = a ≤ b
Below none (some b) = ⊥
Below (some a) none = ⊥

tenths_mono : (a b : Option ℕ) → Below a b → Below (tenths a) (tenths b)
unfolding tenths round
tenths_mono none none h = tt
tenths_mono (some a) (some b) h = ground arith
tenths_mono none (some b) h = h
tenths_mono (some a) none h = h

pct-Below : (xs : List ℕ) (p q : ℕ) → p ≤ q → q ≤ 100 → Below (pct xs p) (pct xs q)
pct-Below [] p q h h' = unfold pct in tt
pct-Below (x ∷ xs) p q h h' =
    let (u, (e, eu)) = pct-share (x ∷ xs) p (omega arith) (omega arith) in
    let (v, (f, fv)) = pct-share (x ∷ xs) q h' (omega arith) in
    rw (e, f) (pct_mono (x ∷ xs) p q u v h e f)

pct-largest : (xs : List ℕ) (p : ℕ) → p ≤ 100 → Below (pct xs p) (where_any xs (largest xs))
unfolding where_any
pct-largest [] p h = unfold pct in tt
pct-largest (x ∷ xs) p h =
    let (u, (e, (c, rest))) = pct-share (x ∷ xs) p h (omega arith) in rw e (equal-le (x ∷ xs) u c)

-- The summary of a level accounts for each of its samples as a completion or as an error, calls it
-- collapsed just where nothing completed, and has its latencies in order: the median, the 90th and
-- the 99th percentile and the maximum, all of them numbers or, on a collapsed level, all missing.
pub numbers-ordered :
    (concurrency wall : ℕ) (samples : List Sample)
    → let r = numbers concurrency wall samples in
      (r.completions + r.errors ≡ r.requests)
      × ((r.collapsed ≡ (r.completions == 0))
          × (Below (r.p50) (r.p90) × (Below (r.p90) (r.p99) × Below (r.p99) (r.max_ms))))
unfolding numbers
numbers-ordered concurrency wall samples =
    let lat = map (λ s. s.latency) (completed samples) in
    let le = completed-le samples in
    (
      omega (arith, le),
      (
        refl,
        (
          tenths_mono (pct lat 50) (pct lat 90) (pct-Below lat 50 90 (omega arith) (omega arith)),
          (
            tenths_mono (pct lat 90) (pct lat 99) (pct-Below lat 90 99 (omega arith) (omega arith)),
            tenths_mono (pct lat 99) (where_any lat (largest lat))
                (pct-largest lat 99 (omega arith)),
          ),
        ),
      ),
    )
