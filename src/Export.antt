-- ===== src/Export.antt =====
-- The export of the front half, export/export_frontend_onnx.py, and the comparison of a graph with PyTorch,
-- which export/export_onnx.py has too.
pub mod Noise
pub mod Parity
use streaming_tts_serving.Base.{
  ℕ, zero, suc, ◌+◌, ◌-◌, ◌*◌, Bool, true, false, ◌&&◌, Option, none, some, List, [], ◌∷◌, map, max,
  length, ltb, leb, if◌then◌else◌,
}
use streaming_tts_serving.Base.Int.{ℤ, pos, negsuc, ◌-ℤ◌}
use streaming_tts_serving.Base.Result.{Result, ok, raise, ◌>>=◌}

-- What `torch.randn` and `torch.randn_like` are set to. A seed of the generator gives a tensor of a shape
-- and the next seed; `like` casts a tensor to the type and the device of another.
pub record Draws (Tensor Seed : Type 0) : Type 0 where
  pub shape_of : Tensor → List ℕ
  pub sample : List ℕ → Seed → Tensor × Seed
  pub like : Tensor → Tensor → Tensor

pub data Sampler (Tensor : Type 0) : Type 0 where
  real : Sampler Tensor
  returns : Tensor → Sampler Tensor

pub record Torch (Tensor : Type 0) : Type 0 where
  pub randn : Sampler Tensor
  pub randn_like : Sampler Tensor

-- A module's forward pass by what it asks of torch's generator: it ends, raises, or draws and goes on.
pub data Pass (Tensor E A : Type 0) : Type 0 where
  result : A → Pass Tensor E A
  failure : E → Pass Tensor E A
  call_randn : List ℕ → (Tensor → Pass Tensor E A) → Pass Tensor E A
  call_randn_like : Tensor → (Tensor → Pass Tensor E A) → Pass Tensor E A

module _ {Tensor Seed : Type 0} (D : Draws Tensor Seed) where
  unfoldable pub draw : Sampler Tensor → List ℕ → Seed → Tensor × Seed
  draw real shape seed = D.sample shape seed
  draw (returns t) shape seed = (t, seed)

  unfoldable pub draw_like : Sampler Tensor → Tensor → Seed → Tensor × Seed
  draw_like real other seed = D.sample (D.shape_of other) seed
  draw_like (returns t) other seed = (D.like t other, seed)

  -- a pass under what the two functions are set to, and the seed behind it
  unfoldable pub forward :
      {E A : Type 0} → Torch Tensor → Pass Tensor E A → Seed → Result E A × Seed
  forward torch (result a) seed = (ok a, seed)
  forward torch (failure e) seed = (raise e, seed)
  forward torch (call_randn shape k) seed =
      let (t, seed') = draw torch.randn shape seed in forward torch (k t) seed'
  forward torch (call_randn_like other k) seed =
      let (t, seed') = draw_like torch.randn_like other seed in forward torch (k t) seed'

-- `randn_returns`, round a body that may itself set the functions and may raise
unfoldable pub randn_returns :
    {Tensor Seed E A : Type 0}
    → Tensor
    → (Torch Tensor → Seed → Torch Tensor × (Result E A × Seed))
    → Torch Tensor
    → Seed
    → Torch Tensor × (Result E A × Seed)
randn_returns tensor body torch seed =
    let (inside, out) =
      body (record { randn = returns tensor; randn_like = returns tensor }) seed in
    (record { randn = torch.randn; randn_like = torch.randn_like }, out)

-- `DurationPredictorWrapper.forward`: the noise is put into the holder, and the predictor is run
unfoldable pub wrapper :
    {Tensor E A : Type 0}
    → (Tensor → Tensor → Pass Tensor E A)
    → Tensor
    → Tensor
    → Tensor
    → Option Tensor
    → Option Tensor × Pass Tensor E A
wrapper dp hidden_states padding_mask noise holder = (some noise, dp hidden_states padding_mask)

-- the reference of the duration predictor, as `main` computes it
unfoldable pub reference :
    {Tensor Seed E A : Type 0}
    → Draws Tensor Seed
    → (Tensor → Tensor → Pass Tensor E A)
    → Tensor
    → Tensor
    → Tensor
    → Torch Tensor
    → Seed
    → Torch Tensor × (Result E A × Seed)
reference D dp hidden pad_mask noise torch seed =
    randn_returns noise
      (λ torch' seed'. (torch', forward D torch' (wrapper dp hidden pad_mask noise none).1 seed'))
      torch seed

-- The numbers of a graph and of its reference, as whole numbers of one unit, of which `unit` make 1.
unfoldable pub magnitude : ℤ → ℕ
magnitude (pos n) = n
magnitude (negsuc n) = suc n

unfoldable pub abs_diff : ℤ → ℤ → ℕ
abs_diff g r = magnitude (g -ℤ r)

-- `diff.max()`
unfoldable pub max_abs_diff : List ℤ → List ℤ → ℕ
max_abs_diff [] rs = 0
max_abs_diff (g ∷ gs) [] = 0
max_abs_diff (g ∷ gs) (r ∷ rs) = max (abs_diff g r) (max_abs_diff gs rs)

-- `np.allclose(g, r, rtol=1e-3, atol=1e-3)`
unfoldable pub allclose : ℕ → List ℤ → List ℤ → Bool
allclose unit [] rs = true
allclose unit (g ∷ gs) [] = true
allclose unit (g ∷ gs) (r ∷ rs) =
    leb (1000 * abs_diff g r) (unit + magnitude r) && allclose unit gs rs

pub record Report : Type 0 where
  pub size : ℕ
  pub largest_diff : ℕ
  pub is_close : Bool

-- `parity`, and the rounds of `check`
unfoldable pub parity : ℕ → List ℤ → List ℤ → Report
parity unit got ref = record {
  size = length got;
  largest_diff = max_abs_diff got ref;
  is_close = allclose unit got ref;
}

-- `check`, for as many outputs as there are of both
unfoldable pub check : ℕ → List (List ℤ) → List (List ℤ) → List Report
check unit [] refs = []
check unit (got ∷ gots) [] = []
check unit (got ∷ gots) (ref ∷ refs) = parity unit got ref ∷ check unit gots refs

pub data ExportError : Type 0 where
  noise_baked_in : ExportError

-- the sum of the differences of two outputs
unfoldable pub spread : List ℤ → List ℤ → ℕ
spread [] ys = 0
spread (x ∷ xs) [] = 0
spread (x ∷ xs) (y ∷ ys) = abs_diff x y + spread xs ys

-- the check that two draws of noise give two outputs: their mean difference is above 1e-6
unfoldable pub noise_is_live : ℕ → List ℤ → List ℤ → Bool
noise_is_live unit d1 d2 = ltb (unit * length d1) (1000000 * spread d1 d2)

unfoldable pub require_live :
    {Tensor : Type 0} → ℕ → (Tensor → List ℤ) → Tensor → Tensor → Result ExportError (Unit {0})
require_live unit session n1 n2 =
    if noise_is_live unit (session n1) (session n2) then ok tt else raise noise_baked_in
