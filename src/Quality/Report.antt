-- ===== src/Quality/Report.antt =====
-- The windows that `main` of export/validate_fp16.py gathers, what it compares of them, and its verdict. The
-- two metrics are a parameter, and a mean is a number of thousandths of a decibel.
use streaming_tts_serving.Base.{
  ℕ, ◌+◌, ◌≤◌, ◌≡◌, true, Bool, List, [], ◌∷◌, ◌++◌, map, length, length-slice, slice, ltb, All,
  All-append, if_both, if◌then◌else◌, Bool-cases, inl, inr, arith,
}
use streaming_tts_serving.Base.Text.{codes}
use streaming_tts_serving.Engines.{dec_profile, engine_inputs}
use streaming_tts_serving.Engines.Fits.{decoder-within}
use streaming_tts_serving.Runner.{is_in_profile}
use streaming_tts_serving.Quality.{valid_centre, windows_at, starts, windows}

-- the loop over the utterances, which ends once there are more than 12 windows
unfoldable pub gather : {F : Type 0} → List (List F) → List (List F) → List (List F)
gather ws [] = ws
gather ws (z ∷ zs) =
    let all = ws ++ windows z in
    let rest = gather all zs in if ltb 12 (length all) then all else rest

pub record Pairs (M : Type 0) : Type 0 where
  pub trt32_vs_torch : List M
  pub trt16_vs_torch : List M
  pub trt16_vs_trt32 : List M

-- the three comparisons of the centres
unfoldable pub pairs :
    {F S M : Type 0}
    → (List F → List S)
    → (List F → List S)
    → (List F → List S)
    → (List S → List S → M)
    → ℕ
    → List (List F)
    → Pairs M
pairs torch r32 r16 metric hop ws = record {
  trt32_vs_torch = map (λ z. metric (valid_centre (torch z) hop) (valid_centre (r32 z) hop)) ws;
  trt16_vs_torch = map (λ z. metric (valid_centre (torch z) hop) (valid_centre (r16 z) hop)) ws;
  trt16_vs_trt32 = map (λ z. metric (valid_centre (r32 z) hop) (valid_centre (r16 z) hop)) ws;
}

pub data Verdict : Type 0 where
  transparent : Verdict
  marginal : Verdict
  audible : Verdict

unfoldable pub verdict : ℕ → Verdict
verdict lsd = if ltb lsd 1000 then transparent else if ltb lsd 2000 then marginal else audible

-- whether the conversion is said to be the larger source of error
unfoldable pub conversion_exceeds : ℕ → ℕ → Bool
conversion_exceeds conv prec = ltb prec conv

windows_at-length :
    {F : Type 0} (z : List F) (ss : List ℕ) → All (λ w. length w ≡ 76) (windows_at z ss)
unfolding windows_at
windows_at-length z [] = tt
windows_at-length z (s ∷ ss) = elim (Bool-cases (ltb (length z) (s + 76))) [
  | inl e ↦ rw e (windows_at-length z ss)
  | inr e ↦ rw e (fits (ground arith), windows_at-length z ss)
]
  where
    fits : s + 76 ≤ length z → length (slice s (s + 76) z) ≡ 76
    fits h = omega (arith, length-slice s (s + 76) z (omega arith) h)

gather-length :
    {F : Type 0} (ws zs : List (List F))
    → All (λ w. length w ≡ 76) ws
    → All (λ w. length w ≡ 76) (gather ws zs)
unfolding gather windows
gather-length ws [] h = h
gather-length ws (z ∷ zs) h =
    let all = ws ++ windows_at z (starts (length z)) in
    let h' : All (λ w. length w ≡ 76) all =
      All-append (λ w. length w ≡ 76) ws (windows_at z (starts (length z))) h
        (windows_at-length z (starts (length z))) in
    if_both (All (λ w. length w ≡ 76)) (ltb 12 (length all)) all (gather all zs) h'
      (gather-length all zs h')

in_profile :
    {F : Type 0} (ch : ℕ) (ws : List (List F))
    → All (λ w. length w ≡ 76) ws
    → All
        (λ w.
          is_in_profile (engine_inputs (dec_profile ch)) (codes "latents") (1 ∷ ch ∷ length w ∷ [])
          ≡ true)
        ws
in_profile ch [] h = tt
in_profile ch (w ∷ ws) (h, hs) = (
  decoder-within 1 ch (length w) 76 (omega arith) (omega arith) (omega arith) (omega arith),
  in_profile ch ws hs,
)

-- The engines take every window that is gathered, whatever the lengths of the utterances.
pub gather-profile :
    {F : Type 0} (ch : ℕ) (zs : List (List F))
    → All
        (λ w.
          is_in_profile (engine_inputs (dec_profile ch)) (codes "latents") (1 ∷ ch ∷ length w ∷ [])
          ≡ true)
        (gather [] zs)
gather-profile ch zs = in_profile ch (gather [] zs) (gather-length [] zs tt)
