-- ===== src/Alignment/Laws.antt =====
-- The alignment against its description: each token's prior, repeated for the frames of the token.
use native.Mathlib.Nat.{zero-mul, mul-zero}
use streaming_tts_serving.Base.{
  ℕ, zero, suc, ◌+◌, ◌-◌, ◌*◌, ◌≤◌, ◌<◌, ◌≡◌, ◌∙◌, refl, sym, ap, ap₂, List, [], ◌∷◌, ◌++◌,
  replicate, ltb, ltb→lt, if◌then◌else◌, All, arith, get_or, Bool-cases, inl, inr, ◌⊎◌,
}
use streaming_tts_serving.Alignment.{Additive, Token, duration, over, valid, times, attend, expand}

-- The masks of the tokens are zeros and ones.
pub record IsMasked {F : Type 0} (k : Token F) : Type 0 where
  pub bit : (k.mask ≡ 0) ⊎ (k.mask ≡ 1)

-- the prior of each token, as often as it has frames
abbrev pub repeated : {F : Type 0} → List (Token F) → List F
repeated [] = []
repeated (k ∷ ks) = replicate (duration k) k.mean ++ repeated ks

valid-one : (t n : ℕ) → t < n → valid t n ≡ 1
unfolding valid
valid-one t n h = ground arith

valid-zero : (t n : ℕ) → n ≤ t → valid t n ≡ 0
unfolding valid
valid-zero t n h = ground arith

suc-add : (n t : ℕ) → suc n + t ≡ suc (n + t)
suc-add n t = omega arith

none_off : (a b : ℕ) → a * (b * 0) ≡ 0
none_off a b = ap (λ n. a * n) (mul-zero b) ∙ mul-zero a

-- A token that has a frame is not masked.
mask-one : {F : Type 0} (k : Token F) → IsMasked k → 0 < duration k → k.mask ≡ 1
unfolding duration
mask-one k m h = elim m.bit [
  | inl e ↦ absurd (omega (arith, ap (λ n. n * k.frames) e ∙ zero-mul k.frames))
  | inr e ↦ e
]

module _ {F : Type 0} (A : Additive F) where
  times_zero : (n : ℕ) (x : F) → n ≡ 0 → times A n x ≡ A.silence
  unfolding times
  times_zero n x e = ap (λ k. times A k x) e

  times_one : (n : ℕ) (x : F) → n ≡ 1 → times A n x ≡ x
  unfolding times
  times_one n x e = ap (λ k. times A k x) e ∙ A.add_silence x

  -- A term that is zero leaves the sum of the later tokens.
  skip : (n : ℕ) (x y : F) → n ≡ 0 → A.add (times A n x) y ≡ y
  skip n x y e = ap (λ z. A.add z y) (times_zero n x e) ∙ A.silence_add y

  attend_past :
      (t out acc : ℕ) (ks : List (Token F)) → t < acc → attend A t out 1 acc ks ≡ A.silence
  unfolding attend
  attend_past t out acc [] h = refl
  attend_past t out acc (k ∷ ks) h =
      let v : valid t (acc + duration k) ≡ 1 = valid-one t (acc + duration k) (omega arith) in
      skip ((valid t (acc + duration k) - 1) * (k.mask * out)) k.mean
        (attend A t out (valid t (acc + duration k)) (acc + duration k) ks)
        (ap (λ n. (n - 1) * (k.mask * out)) v ∙ zero-mul (k.mask * out))
      ∙ ap (λ n. attend A t out n (acc + duration k) ks) v
      ∙ attend_past t out (acc + duration k) ks (omega arith)

  get_or-first : (n t : ℕ) (x d : F) (ys : List F) → t < n → get_or (replicate n x ++ ys) t d ≡ x
  get_or-first zero t x d ys h = absurd (omega arith)
  get_or-first (suc n) zero x d ys h = refl
  get_or-first (suc n) (suc t) x d ys h = get_or-first n t x d ys (omega arith)

  get_or-rest :
      (n t : ℕ) (x d : F) (ys : List F) → get_or (replicate n x ++ ys) (n + t) d ≡ get_or ys t d
  get_or-rest zero t x d ys = ap (λ k. get_or ys k d) {x = 0 + t} {y = t} (omega arith)
  get_or-rest (suc n) t x d ys = rw (suc-add n t) (get_or-rest n t x d ys)

  inside :
      (t acc : ℕ) (k : Token F) (ks : List (Token F))
      → IsMasked k
      → t < duration k
      → attend A (acc + t) 1 0 acc (k ∷ ks) ≡ get_or (repeated (k ∷ ks)) t A.silence
  unfolding attend
  inside t acc k ks m h =
      let v : valid (acc + t) (acc + duration k) ≡ 1 =
        valid-one (acc + t) (acc + duration k) (omega arith) in
      ap₂ A.add
        (times_one ((valid (acc + t) (acc + duration k) - 0) * (k.mask * 1)) k.mean
          (ap₂ (λ n p. (n - 0) * (p * 1)) v (mask-one k m (omega arith))))
        (ap (λ n. attend A (acc + t) 1 n (acc + duration k) ks) v
          ∙ attend_past (acc + t) 1 (acc + duration k) ks (omega arith))
      ∙ A.add_silence k.mean
      ∙ sym (get_or-first (duration k) t k.mean A.silence (repeated ks) h)

  outside :
      (t acc : ℕ) (k : Token F) (ks : List (Token F))
      → duration k ≤ t
      → attend A (acc + t) 1 0 acc (k ∷ ks)
        ≡ attend A (acc + duration k + (t - duration k)) 1 0 (acc + duration k) ks
  unfolding attend
  outside t acc k ks h =
      let v : valid (acc + t) (acc + duration k) ≡ 0 =
        valid-zero (acc + t) (acc + duration k) (omega arith) in
      skip ((valid (acc + t) (acc + duration k) - 0) * (k.mask * 1)) k.mean
        (attend A (acc + t) 1 (valid (acc + t) (acc + duration k)) (acc + duration k) ks)
        (ap (λ n. (n - 0) * (k.mask * 1)) v ∙ zero-mul (k.mask * 1))
      ∙ ap (λ n. attend A (acc + t) 1 n (acc + duration k) ks) v
      ∙ ap (λ n. attend A n 1 0 (acc + duration k) ks) {x = acc + t}
          {y = acc + duration k + (t - duration k)} (omega arith)

  -- A frame behind the beginning of a token's frames gets the prior of the token that it lies in.
  attend-repeated :
      (t acc : ℕ) (ks : List (Token F))
      → All IsMasked ks
      → attend A (acc + t) 1 0 acc ks ≡ get_or (repeated ks) t A.silence
  unfolding attend
  attend-repeated t acc [] m = refl
  attend-repeated t acc (k ∷ ks) (m, ms) = elim (Bool-cases (ltb t (duration k))) [
    | inl e ↦ inside t acc k ks m (ltb→lt t (duration k) e)
    | inr e ↦
        let le : duration k ≤ t = ground arith in
        let rest = attend-repeated (t - duration k) (acc + duration k) ks ms in
        outside t acc k ks le
        ∙ rest
        ∙ sym (get_or-rest (duration k) (t - duration k) k.mean A.silence (repeated ks))
        ∙ ap (λ n. get_or (repeated (k ∷ ks)) n A.silence) {x = duration k + (t - duration k)}
            {y = t} (omega arith)
  ]

  attend_first :
      (t : ℕ) (ks : List (Token F))
      → All IsMasked ks
      → attend A t 1 0 0 ks ≡ get_or (repeated ks) t A.silence
  attend_first t ks m =
      ap (λ n. attend A n 1 0 0 ks) {x = t} {y = 0 + t} (omega arith) ∙ attend-repeated t 0 ks m

  attend_off : (t prev acc : ℕ) (ks : List (Token F)) → attend A t 0 prev acc ks ≡ A.silence
  unfolding attend
  attend_off t prev acc [] = refl
  attend_off t prev acc (k ∷ ks) =
      skip ((valid t (acc + duration k) - prev) * (k.mask * 0)) k.mean _
        (none_off (valid t (acc + duration k) - prev) k.mask)
      ∙ attend_off t (valid t (acc + duration k)) (acc + duration k) ks

  over-ext : {B : Type 0} (f g : ℕ → B) (t n : ℕ) → ((i : ℕ) → f i ≡ g i) → over t n f ≡ over t n g
  unfolding over
  over-ext f g t zero h = refl
  over-ext f g t (suc n) h = ap₂ (λ x xs. x ∷ xs) (h t) (over-ext f g (suc t) n h)

  -- The alignment spreads the priors over the frames as their durations say: frame `t` of the item's
  -- own frames has the prior of the token that the frame lies in, when the tokens are written out one
  -- after the other for their durations, and each other frame of the batch is silence.
  pub expand-repeated :
      (frames n : ℕ) (ks : List (Token F))
      → All IsMasked ks
      → expand A frames n ks
        ≡ over 0 frames (λ t. if ltb t n then get_or (repeated ks) t A.silence else A.silence)
  unfolding expand
  expand-repeated frames n ks m = over-ext _ _ 0 frames (λ t. elim (Bool-cases (ltb t n)) [
    | inl e ↦
        rw e (ap (λ o. attend A t o 0 0 ks) (valid-one t n (ltb→lt t n e)) ∙ attend_first t ks m)
    | inr e ↦
        let le : n ≤ t = ground arith in
        rw e (ap (λ o. attend A t o 0 0 ks) (valid-zero t n le) ∙ attend_off t 0 0 ks)
  ])
