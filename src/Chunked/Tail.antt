-- ===== src/Chunked/Tail.antt =====
-- The samples behind a chunk, which are carried over to the next one.
use native.Mathlib.Nat.{add-mul}
use streaming_tts_serving.Base.{
  ℕ, ◌+◌, ◌-◌, ◌*◌, ◌≤◌, ◌≡◌, ◌∙◌, ◌⊎◌, inl, inr, sym, ap, List, take, drop, slice, take_same,
  length, length-drop, length-slice, arith,
}
use streaming_tts_serving.Chunked.Decode.{Local}

span : (b c hop : ℕ) → b ≤ c → c * hop - b * hop ≡ (c - b) * hop
span b c hop h =
    let e : b + (c - b) ≡ c = omega arith in
    omega (arith, add-mul b (c - b) hop, ap (λ k. k * hop) e)

-- What a window holds from frame `b` on, for `n` samples, is what the full decode has there: the window goes on
-- for the frames of these samples and the field behind them, or to the end of the utterance.
pub window-tail :
    {F S : Type 0} (decoder : List F → List S) (hop field : ℕ) (zs : List F) (lo b c hi n : ℕ)
    → Local decoder hop field
    → lo ≤ b
    → b ≤ c
    → c ≤ hi
    → hi ≤ length zs
    → (lo ≡ 0) ⊎ (lo + field ≤ b)
    → (hi ≡ length zs) ⊎ (c + field ≤ hi)
    → (n ≤ (c - b) * hop) ⊎ ((c ≡ length zs) × (hi ≡ c))
    → take n (drop ((b - lo) * hop) (decoder (slice lo hi zs)))
      ≡ take n (drop (b * hop) (decoder zs))
window-tail {S = S} decoder hop field zs lo b c hi n l h1 h2 h3 h4 left right enough =
    take_same n ((c - b) * hop) (drop ((b - lo) * hop) w) (drop (b * hop) (decoder zs))
      (ap (λ k. take k (drop ((b - lo) * hop) w)) (sym here)
        ∙ l.local_lem zs lo b c hi h1 h2 h3 h4 left right
        ∙ ap (λ k. take k (drop (b * hop) (decoder zs))) there)
      (elim enough [ inl few ↦ inl few | inr (e, e') ↦ inr (ends e', all_ends e) ])
  where
    w : List S
    w = decoder (slice lo hi zs)

    here : (c - lo) * hop - (b - lo) * hop ≡ (c - b) * hop
    here =
        span (b - lo) (c - lo) hop (omega arith)
        ∙ ap (λ k. k * hop) {x = (c - lo) - (b - lo)} {y = c - b} (omega arith)

    there : c * hop - b * hop ≡ (c - b) * hop
    there = span b c hop h2

    ends : hi ≡ c → length (drop ((b - lo) * hop) w) ≤ (c - b) * hop
    ends e = omega (
      arith,
      here,
      length-drop ((b - lo) * hop) w,
      l.length_lem (slice lo hi zs),
      ap (λ k. k * hop) (length-slice lo hi zs (omega arith) h4 ∙ ap (λ k. k - lo) e),
    )

    all_ends : c ≡ length zs → length (drop (b * hop) (decoder zs)) ≤ (c - b) * hop
    all_ends e =
        omega
          (arith, there, length-drop (b * hop) (decoder zs), l.length_lem zs, ap (λ k. k * hop) e)
