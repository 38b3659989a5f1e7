-- ===== src/Speedup/Laws.antt =====
-- The windows of the two timed decodes.
use streaming_tts_serving.Base.{
  ℕ, zero, suc, ◌+◌, ◌-◌, ◌≤◌, ◌<◌, ◌≡◌, refl, ap₂, min, max, List, [], ◌∷◌, ltb, arith, Bool-cases,
  inl, inr, ◌⊎◌, ltb→lt,
}
use streaming_tts_serving.Speedup.{
  chunk, overlap, torch_windows, widened, trt_windows, chunked_decode_trt,
}

-- Windows that hold one chunk after the other from `a` up to `total`.
pub data Covers (total : ℕ) : ℕ → List (ℕ × ℕ) → Type 0 where
  done : Covers total total []
  next :
      (a b lo hi : ℕ) (ws : List (ℕ × ℕ))
      → a < b
      → lo ≤ a
      → b ≤ hi
      → hi ≤ total
      → Covers total b ws
      → Covers total a ((lo, hi) ∷ ws)

widened_same :
    (a total : ℕ)
    → a < total
    → (a ≡ 0) ⊎ (13 ≤ a)
    → widened 14 (max 0 (a - overlap), min total (min (a + chunk) total + overlap))
      ≡ (max 0 (a - overlap), min total (min (a + chunk) total + overlap))
unfolding widened
widened_same a total h z = ground arith

trt-torch :
    (fuel total a : ℕ)
    → (a ≡ 0) ⊎ (13 ≤ a) ⊎ (total ≤ a)
    → trt_windows 14 fuel total a ≡ torch_windows fuel total a
unfolding trt_windows torch_windows
trt-torch zero total a z = refl
trt-torch (suc fuel) total a z =
    let b = min (a + chunk) total in
    let rest = trt-torch fuel total (min (a + chunk) total) (omega arith) in
    elim (Bool-cases (ltb a total)) [
      | inl e ↦
          let lt = ltb→lt a total e in
          rw e (ap₂ (λ w ws. w ∷ ws) (widened_same a total lt (omega arith)) rest)
      | inr e ↦ rw e refl
    ]

torch_windows-from :
    (fuel total a : ℕ) → a ≤ total → total ≤ a + fuel → Covers total a (torch_windows fuel total a)
unfolding torch_windows
torch_windows-from zero total a h h' = at_end a (omega arith)
  where
    at_end : (n : ℕ) → n ≡ total → Covers total n []
    at_end n e = rw e done
torch_windows-from (suc fuel) total a h h' =
    let rest = torch_windows-from fuel total (min (a + chunk) total) (omega arith) in
    elim (Bool-cases (ltb a total)) [
      | inl e ↦
          let lt = ltb→lt a total e in
          rw e (
            next a (min (a + chunk) total) _ _ _ (omega arith) (omega arith) (omega arith)
              (omega arith) (rest (omega arith)))
      | inr e ↦ let same : a ≡ total = ground arith in rw (e, same) done
    ]

-- The two decodes that are timed against each other call the decoder on the same windows, which hold
-- every frame of the utterance one chunk after the other: the engine's smallest window never
-- widens one.
pub chunked_decode_trt-Covers :
    (total : ℕ)
    → (chunked_decode_trt 14 total ≡ torch_windows total total 0)
      × Covers total 0 (torch_windows total total 0)
unfolding chunked_decode_trt
chunked_decode_trt-Covers total = (
  trt-torch total total 0 (inl refl),
  torch_windows-from total total 0 (omega arith) (omega arith),
)
