-- ===== src/Frontend/Latents/Laws.antt =====
-- What a request gets back when it is batched with others, whatever the network makes of the batch.
use streaming_tts_serving.Base.{
  ℕ, zero, suc, ◌+◌, ◌-◌, ◌≤◌, ◌≡◌, ◌⊎◌, inl, inr, ◌∙◌, refl, ap, ap₂, max, Bool, true, false, some,
  List, [], ◌∷◌, map, length, take, drop, get_elem?, arith, All, Bool-cases, ◌==◌, if◌then◌else◌,
}
use streaming_tts_serving.Base.Result.{Result, ok, ◌>>=◌}
use streaming_tts_serving.Frontend.Latents.{
  Rows, Request, BatchError, Response, latents, mask_of, unpack, max_width, fuse, voiced,
  num_frames, answer, answers, run_latents, batched, execute,
}
use streaming_tts_serving.Frontend.Latents.Padding.{
  rows_of, fuse-rows, max_width-All, mask-All, Utterance, Masked, request, ids_of, masks_of,
}

module _ {F : Type 0} (silent : F → Bool) where
  -- The last frame that is heard is the one before the `n`-th, or none is heard and all are kept.
  abbrev pub Heard : List F → ℕ → Type 0
  Heard row n =
      ((f : F) × (get_elem? row (n - 1) ≡ some f) × (silent f ≡ false))
      ⊎ ((n ≡ max 1 (length row)) × All (λ f. silent f ≡ true) row)

  -- A response holds the frames of its row up to the last one that is heard: all behind are silent.
  abbrev pub Trimmed : {E : Type 0} → List F → Response E F → Type 0
  Trimmed row response =
      (n : ℕ) × (response ≡ latents (take n row) n)
      × (1 ≤ n)
      × All (λ f. silent f ≡ true) (drop n row)
      × Heard row n

  abbrev Voiced : List F → ℕ → Type 0
  Voiced row zero = All (λ f. silent f ≡ true) row
  Voiced row (suc n) =
      ((f : F) × (get_elem? row n ≡ some f) × (silent f ≡ false))
      × All (λ f. silent f ≡ true) (drop (suc n) row)

  Voiced-more :
      (f : F) (row : List F) (n : ℕ)
      → Voiced row n
      → Voiced (f ∷ row) (if n == 0 then (if silent f then 0 else 1) else n + 1)
  Voiced-more f row zero v = elim (Bool-cases (silent f)) [
    | inl e ↦ rw e (e, v)
    | inr e ↦ rw e ((f, refl, e), v)
  ]
  Voiced-more f row (suc n) v =
      let e : (suc n == 0) ≡ false = ground arith in
      let next : suc n + 1 ≡ suc (suc n) = omega arith in rw (e, next) v

  voiced-Voiced : (row : List F) → Voiced row (voiced silent row)
  unfolding voiced
  voiced-Voiced [] = tt
  voiced-Voiced (f ∷ row) = Voiced-more f row (voiced silent row) (voiced-Voiced row)

  -- the rest of a row whose frames are all silent
  drop-silent :
      (n : ℕ) (row : List F)
      → All (λ f. silent f ≡ true) row
      → All (λ f. silent f ≡ true) (drop n row)
  drop-silent zero row h = h
  drop-silent (suc n) [] h = tt
  drop-silent (suc n) (f ∷ row) (h, hs) = drop-silent n row hs

  Voiced-Heard :
      (row : List F) (n : ℕ)
      → Voiced row n
      → let kept = max 1 (if n == 0 then length row else n) in
        All (λ f. silent f ≡ true) (drop kept row) × Heard row kept
  Voiced-Heard row zero v = (drop-silent (max 1 (length row)) row v, inr (refl, v))
  Voiced-Heard row (suc n) (v, rest) =
      let e : (suc n == 0) ≡ false = ground arith in
      let kept : max 1 (suc n) ≡ suc n = omega arith in
      let last : suc n - 1 ≡ n = omega arith in rw (e, kept, last) (rest, inl v)

  answer-Trimmed : {E : Type 0} (row : List F) → Trimmed {E = E} row (answer silent row)
  unfolding answer num_frames
  answer-Trimmed row =
      let (rest, heard) = Voiced-Heard row (voiced silent row) (voiced-Voiced row) in
      (num_frames silent row, refl, omega arith, rest, heard)

  -- a response for each row, in order
  abbrev pub AllTrimmed : {E : Type 0} → List (List F) → List (Response E F) → Type 0
  AllTrimmed [] [] = Unit
  AllTrimmed [] (r ∷ rs) = ⊥
  AllTrimmed (row ∷ out) [] = ⊥
  AllTrimmed (row ∷ out) (r ∷ rs) = Trimmed row r × AllTrimmed out rs

  map-AllTrimmed :
      (E : Type 0) (out : List (List F)) → AllTrimmed {E = E} out (map (answer silent) out)
  map-AllTrimmed E [] = tt
  map-AllTrimmed E (row ∷ out) = (answer-Trimmed row, map-AllTrimmed E out)

module _ {E F : Type 0} (silent : F → Bool)
    (latents_of : Rows → Rows → Result E (List (List F))) where
  answers_each :
      {A : Type 0} (request_of : A → Request) (us : List A) (out : List (List F))
      → length out ≡ length us
      → answers {E = E} silent (map request_of us) out ≡ ok (map (answer silent) out)
  unfolding answers
  answers_each request_of [] [] h = refl
  answers_each request_of [] (row ∷ out) h = absurd (omega arith)
  answers_each request_of (u ∷ us) [] h = absurd (omega arith)
  answers_each request_of (u ∷ us) (row ∷ out) h =
      rw (answers_each request_of us out (omega arith)) refl

  ids-request : (us : List Utterance) → map (λ r. (unpack r).0) (map request us) ≡ map ids_of us
  unfolding unpack
  ids-request [] = refl
  ids-request (u ∷ us) = ap (λ t. ids_of u ∷ t) (ids-request us)

  masks-request : (us : List Utterance) → map (λ r. (unpack r).1) (map request us) ≡ map masks_of us
  unfolding unpack
  masks-request [] = refl
  masks-request (u ∷ us) = ap (λ t. masks_of u ∷ t) (masks-request us)

  -- the ids and the masks that the network is called with: each row filled up with zeros to the longest
  abbrev pub padded_ids : List Utterance → Rows
  padded_ids us = rows_of (λ u. u.0) (max_width (map ids_of us)) us

  abbrev pub padded_masks : List Utterance → Rows
  padded_masks us = rows_of (λ u. mask_of (u.0) (u.1)) (max_width (map ids_of us)) us

  -- `_batched` behind the padding
  abbrev batch_of :
      List Request → ℕ → List Rows → List Rows → Result (BatchError E) (List (Response E F))
  batch_of qs smax ids mask = do
    fused ← fuse smax ids
    fused_mask ← fuse smax mask
    out ← run_latents silent latents_of fused fused_mask
    answers silent qs out

  run_latents-ok :
      (ids masks : Rows) (out : List (List F))
      → latents_of ids masks ≡ ok out
      → run_latents silent latents_of ids masks ≡ ok out
  unfolding run_latents
  run_latents-ok ids masks out e = rw (run_latents, e) refl

  batched_each :
      (u : Utterance) (us : List Utterance) (out : List (List F))
      → All Masked (u ∷ us)
      → latents_of (padded_ids (u ∷ us)) (padded_masks (u ∷ us)) ≡ ok out
      → length out ≡ length (u ∷ us)
      → batched silent latents_of (map request (u ∷ us)) ≡ ok (map (answer silent) out)
  unfolding batched
  batched_each u us out m e n =
      let smax = max_width (map ids_of (u ∷ us)) in
      let fits = max_width-All (u ∷ us) smax (omega arith) in
      ap₂ (λ ids mask. batch_of (map request (u ∷ us)) (max_width ids) ids mask)
        (ids-request (u ∷ us)) (masks-request (u ∷ us))
      ∙ rw
          (
            fuse-rows {E = E} (λ u. u.0) smax (u ∷ us) fits,
            fuse-rows {E = E} (λ u. mask_of (u.0) (u.1)) smax (u ∷ us)
                (mask-All (u ∷ us) smax m fits),
            run_latents-ok (padded_ids (u ∷ us)) (padded_masks (u ∷ us)) out e,
          )
          (answers_each request (u ∷ us) out n)

  -- Requests of one utterance each, grouped into one batch: the network is called once, on the rows of all
  -- of them filled up with zeros to the longest, and where it gives a row for each, whatever noise it draws,
  -- each request gets its own row of them, in order, up to the last frame that is not silent; it loses no
  -- frame that is heard.
  pub execute-Trimmed :
      (u : Utterance) (us : List Utterance) (out : List (List F))
      → All Masked (u ∷ us)
      → latents_of (padded_ids (u ∷ us)) (padded_masks (u ∷ us)) ≡ ok out
      → length out ≡ length (u ∷ us)
      → AllTrimmed silent out (execute silent latents_of (map request (u ∷ us)))
  unfolding execute
  execute-Trimmed u us out m e n =
      rw (execute, batched_each u us out m e n) (map-AllTrimmed silent E out)
