-- ===== src/Percentile.antt =====
-- The percentile of baseline/loadtest.py; streaming/client.py has the same code.
-- Latencies are whole numbers of one unit.
pub mod Laws
use streaming_tts_serving.Base.{
  ℕ, ◌+◌, ◌-◌, ◌*◌, ◌≤◌, min, max, Option, none, some, Bool, List, [], ◌∷◌, length, get_elem?, leb,
  ◌==◌, if◌then◌else◌,
}
use streaming_tts_serving.Chunked.{round}

-- `sorted`
unfoldable pub insert : ℕ → List ℕ → List ℕ
insert x [] = x ∷ []
insert x (y ∷ ys) = let rest = insert x ys in if leb x y then x ∷ y ∷ ys else y ∷ rest

unfoldable pub sorted : List ℕ → List ℕ
sorted [] = []
sorted (x ∷ xs) = insert x (sorted xs)

-- `max(0, min(n - 1, int(round(p / 100.0 * n + 0.5)) - 1))`
unfoldable pub rank : ℕ → ℕ → ℕ
rank p n = max 0 (min (n - 1) (round (2 * (p * n) + 100) 200 - 1))

-- `pct`: there is no number for no samples
unfoldable pub pct : List ℕ → ℕ → Option ℕ
pct [] p = none
pct (x ∷ xs) p = get_elem? (sorted (x ∷ xs)) (rank p (length (x ∷ xs)))
