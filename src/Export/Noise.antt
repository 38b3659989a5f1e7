-- ===== src/Export/Noise.antt =====
-- What the swap of torch's generator does.
use streaming_tts_serving.Base.{ℕ, ◌≡◌, refl, ap, List, [], ◌∷◌, ◌*◌, arith, ltb, length, false}
use streaming_tts_serving.Base.Int.{ℤ, pos, negsuc, ◌-ℤ◌}
use streaming_tts_serving.Base.Result.{Result, ok, raise}
use streaming_tts_serving.Export.{
  Draws, returns, Torch, Pass, result, failure, call_randn, call_randn_like, draw, draw_like,
  forward, randn_returns, wrapper, reference, abs_diff, magnitude, spread, noise_is_live,
  noise_baked_in, require_live,
}

module _ {Tensor Seed : Type 0} (D : Draws Tensor Seed) where
  -- the pass as a function of the noise: each draw gives the one tensor
  abbrev pub pure_pass : {E A : Type 0} → Pass Tensor E A → Tensor → Result E A
  pure_pass (result a) noise = ok a
  pure_pass (failure e) noise = raise e
  pure_pass (call_randn shape k) noise = pure_pass (k noise) noise
  pure_pass (call_randn_like other k) noise = pure_pass (k (D.like noise other)) noise

  forward-pure_pass :
      {E A : Type 0} (p : Pass Tensor E A) (noise : Tensor) (seed : Seed)
      → forward D (record { randn = returns noise; randn_like = returns noise }) p seed
        ≡ (pure_pass p noise, seed)
  unfolding forward draw draw_like
  forward-pure_pass (result a) noise seed = refl
  forward-pure_pass (failure e) noise seed = refl
  forward-pure_pass (call_randn shape k) noise seed = forward-pure_pass (k noise) noise seed
  forward-pure_pass (call_randn_like other k) noise seed =
      forward-pure_pass (k (D.like noise other)) noise seed

  -- The reference that the export is compared with is a function of the noise that was passed in: whatever the
  -- predictor draws, and however often, it gets that tensor, no number of the generator is used up, and
  -- torch's two functions are what they were, where the predictor raises too.
  pub reference_lem :
      {E A : Type 0} (dp : Tensor → Tensor → Pass Tensor E A) (hidden pad_mask noise : Tensor)
      (torch : Torch Tensor) (seed : Seed)
      → reference D dp hidden pad_mask noise torch seed
        ≡ (torch, (pure_pass (dp hidden pad_mask) noise, seed))
  unfolding reference randn_returns wrapper
  reference_lem dp hidden pad_mask noise torch seed =
      ap (λ r. (torch, r)) (forward-pure_pass (dp hidden pad_mask) noise seed)

abs_diff_self : (x : ℤ) → abs_diff x x ≡ 0
unfolding abs_diff magnitude ◌-ℤ◌
abs_diff_self (pos n) = ground arith
abs_diff_self (negsuc n) = ground arith

spread_self : (xs : List ℤ) → spread xs xs ≡ 0
unfolding spread
spread_self [] = refl
spread_self (x ∷ xs) = omega (arith, abs_diff_self x, spread_self xs)

-- A graph in which the noise was folded into a constant never passes the export: where two draws give one
-- output, the export raises, whatever the output is.
pub require_live-baked :
    {Tensor : Type 0} (unit : ℕ) (session : Tensor → List ℤ) (n1 n2 : Tensor)
    → session n1 ≡ session n2
    → require_live unit session n1 n2 ≡ raise noise_baked_in
unfolding require_live noise_is_live
require_live-baked unit session n1 n2 e = rw same refl
  where
    same : ltb (unit * length (session n1)) (1000000 * spread (session n1) (session n2)) ≡ false
    same = ground (arith, ap (spread (session n1)) e, spread_self (session n1))
