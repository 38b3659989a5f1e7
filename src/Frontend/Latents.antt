-- ===== src/Frontend/Latents.antt =====
-- model_repo/vits_frontend/1/model.py: token ids to latents, one batch for the grouped requests.
-- `self._latents` is a parameter: the TensorRT front half, or the PyTorch one.
use streaming_tts_serving.Base.{
  ℕ, zero, suc, ◌+◌, ◌-◌, ◌≡◌, refl, max, Bool, true, false, not, Option, none, some, List, [], ◌∷◌,
  ◌++◌, map, length, take, replicate, get_elem?, if◌then◌else◌, ◌==◌, ltb,
}
use streaming_tts_serving.Base.Result.{Result, ok, raise, ◌>>=◌}
pub mod Padding
pub mod Laws

abbrev pub Rows : Type 0
Rows = List (List ℕ)

-- INPUT_IDS and ATTENTION_MASK of a request, with one dimension or with two; the mask may be missing.
pub data Request : Type 0 where
  flat : List ℕ → Option (List ℕ) → Request
  rows : Rows → Option Rows → Request

pub data BatchError (E : Type 0) : Type 0 where
  no_requests : BatchError E
  out_of_range : BatchError E
  bad_shape : BatchError E
  latents_raised : E → BatchError E

-- A response: the frames of LATENTS with NUM_FRAMES, or an error.
pub data Response (E F : Type 0) : Type 0 where
  latents : List F → ℕ → Response E F
  error : BatchError E → Response E F

-- `np.ones_like`
unfoldable pub ones_like : Rows → Rows
ones_like [] = []
ones_like (r ∷ rs) = replicate (length r) 1 ∷ ones_like rs

-- the mask of a request of one dimension, where it may be missing
unfoldable pub mask_of : List ℕ → Option (List ℕ) → List ℕ
mask_of ids none = replicate (length ids) 1
mask_of ids (some mask) = mask

-- the ids and the mask of a request as two dimensions
unfoldable pub unpack : Request → Rows × Rows
unpack (flat ids m) = (ids ∷ [], mask_of ids m ∷ [])
unpack (rows ids none) = (ids, ones_like ids)
unpack (rows ids (some mask)) = (ids, mask)

-- `a.shape[-1]`
unfoldable pub width : Rows → ℕ
width [] = 0
width (r ∷ rs) = length r

-- `max(a.shape[-1] for a in ids_list)`
unfoldable pub max_width : List Rows → ℕ
max_width [] = 0
max_width (a ∷ as_) = max (width a) (max_width as_)

unfoldable pub pad_row : ℕ → List ℕ → List ℕ
pad_row smax r = r ++ replicate (smax - length r) 0

-- `pad`: a tensor wider than `smax` does not fit into the zeros
unfoldable pub pad : {E : Type 0} → ℕ → Rows → Result (BatchError E) Rows
pad smax a =
    if width a == smax
    then ok a
    else (if ltb (width a) smax then ok (map (pad_row smax) a) else raise bad_shape)

-- `np.concatenate([pad(a) for a in …], axis=0)`
unfoldable pub fuse : {E : Type 0} → ℕ → List Rows → Result (BatchError E) Rows
fuse smax [] = ok []
fuse smax (a ∷ as_) = do padded ← pad smax a; rest ← fuse smax as_; ok (padded ++ rest)

module _ {F : Type 0} (silent : F → Bool) where
  -- the number of frames up to the last one that is not silent, or none where all are
  unfoldable pub voiced : List F → ℕ
  voiced [] = 0
  voiced (f ∷ fs) = let n = voiced fs in if n == 0 then (if silent f then 0 else 1) else n + 1

  -- `frames[i]`, where the row has `len` frames, and then `max(1, …)`
  unfoldable pub num_frames : List F → ℕ
  num_frames row = let n = voiced row in max 1 (if n == 0 then length row else n)

module _ {E F : Type 0} (silent : F → Bool) where
  -- a response of a row of the batch
  unfoldable pub answer : List F → Response E F
  answer row = let n = num_frames silent row in latents (take n row) n

  -- `for i in range(len(requests))`, over the rows of the batch
  unfoldable pub answers :
      List Request → List (List F) → Result (BatchError E) (List (Response E F))
  answers [] out = ok []
  answers (q ∷ qs) [] = raise out_of_range
  answers (q ∷ qs) (row ∷ out) = do rest ← answers qs out; ok (answer row ∷ rest)

  module _ (latents_of : Rows → Rows → Result E (List (List F))) where
    unfoldable pub run_latents : Rows → Rows → Result (BatchError E) (List (List F))
    run_latents ids mask = elim (latents_of ids mask) [
      | ok out ↦ ok out
      | raise e ↦ raise (latents_raised e)
    ]

    -- `_batched`
    unfoldable pub batched : List Request → Result (BatchError E) (List (Response E F))
    batched [] = raise no_requests
    batched (q ∷ qs) =
        let ids = map (λ r. (unpack r).0) (q ∷ qs) in
        let mask = map (λ r. (unpack r).1) (q ∷ qs) in
        let smax = max_width ids in
        (do
          fused ← fuse smax ids
          fused_mask ← fuse smax mask
          out ← run_latents fused fused_mask
          answers (q ∷ qs) out)

    -- `execute`
    unfoldable pub execute : List Request → List (Response E F)
    execute qs = elim (batched qs) [ ok rs ↦ rs | raise e ↦ map (λ q. error e) qs ]
