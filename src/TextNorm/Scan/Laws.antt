-- ===== src/TextNorm/Scan/Laws.antt =====
-- What a scan writes, from what its matcher answers.
use streaming_tts_serving.Base.{
  ℕ, zero, suc, ◌≡◌, refl, Option, none, some, [], ◌∷◌, ◌++◌, All, All-append,
}
use streaming_tts_serving.Base.Text.{Text}
use streaming_tts_serving.TextNorm.Scan.{Matcher, scan, sub}

module _ (P : ℕ → Type 0) (m : Matcher) where
  -- Each replacement holds to `P`, and so does each character that no match takes.
  pub record Writes : Type 0 where
    pub hit : (prev : Option ℕ) (s r : Text) (n : ℕ) → m prev s ≡ some (r, n) → All P r
    pub miss : (prev : Option ℕ) (c : ℕ) (s : Text) → m prev (c ∷ s) ≡ none → P c
    pub empty : (prev : Option ℕ) (c : ℕ) (s r : Text) → m prev (c ∷ s) ≡ some (r, zero) → P c

  module _ (w : Writes) where
    scan-All : (prev : Option ℕ) (skip : ℕ) (s : Text) → All P (scan m prev skip s)
    unfolding scan
    scan-All prev skip [] = tt
    scan-All prev (suc k) (c ∷ s) = scan-All (some c) k s
    scan-All prev zero (c ∷ s) =
        go (m prev (c ∷ s)) refl (scan-All (some c) zero s) (λ k. scan-All (some c) k s)
      where
        go :
            (o : Option (Text × ℕ))
            → m prev (c ∷ s) ≡ o
            → All P (scan m (some c) zero s)
            → ((k : ℕ) → All P (scan m (some c) k s))
            → All P (elim o [
              | none ↦ c ∷ scan m (some c) zero s
              | some (r, zero) ↦ r ++ (c ∷ scan m (some c) zero s)
              | some (r, suc k) ↦ r ++ scan m (some c) k s
            ])
        go none e h hk = (w.miss prev c s e, h)
        go (some (r, zero)) e h hk =
            All-append P r _ (w.hit prev (c ∷ s) r zero e) (w.empty prev c s r e, h)
        go (some (r, suc k)) e h hk = All-append P r _ (w.hit prev (c ∷ s) r (suc k) e) (hk k)

    pub sub-All : (s : Text) → All P (sub m s)
    unfolding sub
    sub-All s = scan-All none zero s

module _ (P : ℕ → Type 0) (m : Matcher) where
  module _ (hit : (prev : Option ℕ) (s r : Text) (n : ℕ) → m prev s ≡ some (r, n) → All P r) where
    scan_kept-All : (prev : Option ℕ) (skip : ℕ) (s : Text) → All P s → All P (scan m prev skip s)
    unfolding scan
    scan_kept-All prev skip [] h = tt
    scan_kept-All prev (suc k) (c ∷ s) (_, h) = scan_kept-All (some c) k s h
    scan_kept-All prev zero (c ∷ s) (hc, h) =
        go (m prev (c ∷ s)) refl (scan_kept-All (some c) zero s h)
          (λ k. scan_kept-All (some c) k s h)
      where
        go :
            (o : Option (Text × ℕ))
            → m prev (c ∷ s) ≡ o
            → All P (scan m (some c) zero s)
            → ((k : ℕ) → All P (scan m (some c) k s))
            → All P (elim o [
              | none ↦ c ∷ scan m (some c) zero s
              | some (r, zero) ↦ r ++ (c ∷ scan m (some c) zero s)
              | some (r, suc k) ↦ r ++ scan m (some c) k s
            ])
        go none e t tk = (hc, t)
        go (some (r, zero)) e t tk = All-append P r _ (hit prev (c ∷ s) r zero e) (hc, t)
        go (some (r, suc k)) e t tk = All-append P r _ (hit prev (c ∷ s) r (suc k) e) (tk k)

    -- A rule whose replacements hold to `P` keeps a text that does.
    pub sub_kept-All : (s : Text) → All P s → All P (sub m s)
    unfolding sub
    sub_kept-All s = scan_kept-All none zero s
