-- ===== src/Frontend/Latents/Padding.antt =====
-- Utterances as requests, and the rows that their batch is padded to.
use streaming_tts_serving.Base.{
  ℕ, suc, ◌-◌, ◌≤◌, ◌≡◌, ◌∙◌, refl, ap, Option, List, [], ◌∷◌, ◌++◌, map, length, replicate, arith,
  All, append-nil, length-append, length-replicate,
}
use streaming_tts_serving.Base.Result.{ok, ◌>>=◌}
use streaming_tts_serving.Frontend.Latents.{
  Rows, Request, flat, mask_of, width, max_width, pad_row, pad, fuse,
}

-- The ids of an utterance and its mask, which may be missing.
abbrev pub Utterance : Type 0
Utterance = List ℕ × Option (List ℕ)

-- A mask, where there is one, has a number for each id.
pub record Masked (u : Utterance) : Type 0 where
  pub mask_lem : length (mask_of (u.0) (u.1)) ≡ length (u.0)

abbrev pub request : Utterance → Request
request u = flat (u.0) (u.1)

abbrev pub ids_of : Utterance → Rows
ids_of u = u.0 ∷ []

abbrev pub masks_of : Utterance → Rows
masks_of u = mask_of (u.0) (u.1) ∷ []

pub length-pad_row : (n : ℕ) (r : List ℕ) → length r ≤ n → length (pad_row n r) ≡ n
unfolding pad_row
length-pad_row n r h =
    omega (
      arith,
      length-append r (replicate (n - length r) 0),
      length-replicate {A = ℕ} (n - length r) 0,
    )

pub pad_row_same : (n : ℕ) (r : List ℕ) → length r ≡ n → pad_row n r ≡ r
unfolding pad_row
pad_row_same n r h =
    let e : n - length r ≡ 0 = omega arith in ap (λ k. r ++ replicate k 0) e ∙ append-nil r

-- A row that is not wider than the batch is padded, or is left as it is where it needs no padding.
pub pad-row :
    {E : Type 0} (n : ℕ) (r : List ℕ)
    → length r ≤ n
    → pad {E = E} n (r ∷ []) ≡ ok (pad_row n r ∷ [])
unfolding pad width
pad-row n r h = let same : length r ≡ n → pad_row n r ≡ r = pad_row_same n r in ground arith

unfoldable pub rows_of : {A : Type 0} → (A → List ℕ) → ℕ → List A → Rows
rows_of f n [] = []
rows_of f n (u ∷ us) = pad_row n (f u) ∷ rows_of f n us

pub fuse-rows :
    {E A : Type 0} (f : A → List ℕ) (n : ℕ) (us : List A)
    → All (λ u. length (f u) ≤ n) us
    → fuse {E = E} n (map (λ u. f u ∷ []) us) ≡ ok (rows_of f n us)
unfolding fuse rows_of
fuse-rows f n [] h = refl
fuse-rows {E = E} f n (u ∷ us) (h, hs) =
    ap (λ r. pad n (f u ∷ []) >>= (λ a. r >>= (λ rest. ok (a ++ rest))))
      (fuse-rows {E = E} f n us hs)
    ∙ ap (λ r. r >>= (λ a. ok (a ++ rows_of f n us))) (pad-row n (f u) h)

pub length-rows_of :
    {A : Type 0} (f : A → List ℕ) (n : ℕ) (us : List A) → length (rows_of f n us) ≡ length us
unfolding rows_of
length-rows_of f n [] = refl
length-rows_of f n (u ∷ us) = ap suc (length-rows_of f n us)

pub rows_of-All :
    {A : Type 0} (f : A → List ℕ) (n : ℕ) (us : List A)
    → All (λ u. length (f u) ≤ n) us
    → All (λ r. length r ≡ n) (rows_of f n us)
unfolding rows_of
rows_of-All f n [] h = tt
rows_of-All f n (u ∷ us) (h, hs) = (length-pad_row n (f u) h, rows_of-All f n us hs)

pub max_width-All :
    (us : List Utterance) (n : ℕ) → max_width (map ids_of us) ≤ n → All (λ u. length (u.0) ≤ n) us
unfolding max_width width
max_width-All [] n h = tt
max_width-All (u ∷ us) n h = (omega arith, max_width-All us n (omega arith))

pub mask-All :
    (us : List Utterance) (n : ℕ)
    → All Masked us
    → All (λ u. length (u.0) ≤ n) us
    → All (λ u. length (mask_of (u.0) (u.1)) ≤ n) us
mask-All [] n m h = tt
mask-All (u ∷ us) n (m, ms) (h, hs) = (omega (arith, m.mask_lem), mask-All us n ms hs)
