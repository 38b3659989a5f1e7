-- ===== src/Export/Parity.antt =====
-- What a graph that is close to its reference is.
use streaming_tts_serving.Base.{ℕ, ◌+◌, ◌*◌, ◌≤◌, ◌≡◌, true, max, List, [], ◌∷◌, arith}
use streaming_tts_serving.Base.Int.{ℤ}
use streaming_tts_serving.Export.{magnitude, max_abs_diff, allclose}

largest : List ℤ → ℕ
largest [] = 0
largest (r ∷ rs) = max (magnitude r) (largest rs)

allclose-max_abs_diff :
    (unit : ℕ) (gs rs : List ℤ)
    → allclose unit gs rs ≡ true
    → 1000 * max_abs_diff gs rs ≤ unit + largest rs
unfolding allclose max_abs_diff largest
allclose-max_abs_diff unit [] rs h = omega arith
allclose-max_abs_diff unit (g ∷ gs) [] h = omega arith
allclose-max_abs_diff unit (g ∷ gs) (r ∷ rs) h = ground (arith, allclose-max_abs_diff unit gs rs)
