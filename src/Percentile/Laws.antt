-- ===== src/Percentile/Laws.antt =====
-- What share of the samples lies below and above a percentile.
use streaming_tts_serving.Base.{
  ℕ, zero, suc, ◌+◌, ◌*◌, ◌≤◌, ◌<◌, ◌≡◌, ◌∙◌, refl, ap, some, Bool, List, [], ◌∷◌, length,
  get_elem?, leb, ltb, ◌==◌, if◌then◌else◌, arith, All, if_both, inl, inr, Bool-cases,
}
use mathlib.Core.Option.{none-ne-some, some-injective}
use native.Mathlib.Nat.{mul-le-mul_right}
use streaming_tts_serving.Chunked.{round}
use streaming_tts_serving.Percentile.{insert, sorted, rank, pct}

-- how many samples pass a test
abbrev pub count : (ℕ → Bool) → List ℕ → ℕ
count f [] = 0
count f (x ∷ xs) = (if f x then 1 else 0) + count f xs

abbrev pub at_most : ℕ → ℕ → Bool
at_most v x = leb x v

abbrev pub below : ℕ → ℕ → Bool
below v x = ltb x v

abbrev pub equal_to : ℕ → ℕ → Bool
equal_to v x = x == v

count-insert :
    (f : ℕ → Bool) (x : ℕ) (ys : List ℕ)
    → count f (insert x ys) ≡ (if f x then 1 else 0) + count f ys
unfolding insert
count-insert f x [] = refl
count-insert f x (y ∷ ys) =
    if_both (λ t. count f t ≡ (if f x then 1 else 0) + count f (y ∷ ys)) (leb x y) _ _ refl
      (omega (arith, count-insert f x ys))

count-sorted : (f : ℕ → Bool) (xs : List ℕ) → count f (sorted xs) ≡ count f xs
unfolding sorted
count-sorted f [] = refl
count-sorted f (x ∷ xs) =
    count-insert f x (sorted xs) ∙ ap (λ n. (if f x then 1 else 0) + n) (count-sorted f xs)

length-insert : (x : ℕ) (ys : List ℕ) → length (insert x ys) ≡ suc (length ys)
unfolding insert
length-insert x [] = refl
length-insert x (y ∷ ys) =
    if_both {A = List ℕ} (λ t. length t ≡ suc (length (y ∷ ys))) (leb x y) (x ∷ y ∷ ys)
      (y ∷ insert x ys) refl (ap suc (length-insert x ys))

length-sorted : (xs : List ℕ) → length (sorted xs) ≡ length xs
unfolding sorted
length-sorted [] = refl
length-sorted (x ∷ xs) = length-insert x (sorted xs) ∙ ap suc (length-sorted xs)

abbrev Sorted : List ℕ → Type 0
Sorted [] = Unit
Sorted (x ∷ xs) = All (λ y. x ≤ y) xs × Sorted xs

All-weaken : {a b : ℕ} → a ≤ b → (xs : List ℕ) → All (λ y. b ≤ y) xs → All (λ y. a ≤ y) xs
All-weaken h [] t = tt
All-weaken h (x ∷ xs) (p, ps) = (omega arith, All-weaken h xs ps)

All-insert :
    (a x : ℕ) → a ≤ x → (ys : List ℕ) → All (λ y. a ≤ y) ys → All (λ y. a ≤ y) (insert x ys)
unfolding insert
All-insert a x h [] t = (h, tt)
All-insert a x h (y ∷ ys) (p, ps) =
    if_both (λ t. All (λ y. a ≤ y) t) (leb x y) _ _ (h, (p, ps)) (p, All-insert a x h ys ps)

insert-Sorted : (x : ℕ) (ys : List ℕ) → Sorted ys → Sorted (insert x ys)
unfolding insert
insert-Sorted x [] s = (tt, tt)
insert-Sorted x (y ∷ ys) (a, s) =
    let rest : Sorted (insert x ys) = insert-Sorted x ys s in
    elim (Bool-cases (leb x y)) [
      | inl e ↦ let le : x ≤ y = ground arith in rw e ((le, All-weaken le ys a), (a, s))
      | inr e ↦ let le : y ≤ x = ground arith in rw e (All-insert y x le ys a, rest)
    ]

sorted-Sorted : (xs : List ℕ) → Sorted (sorted xs)
unfolding sorted
sorted-Sorted [] = tt
sorted-Sorted (x ∷ xs) = insert-Sorted x (sorted xs) (sorted-Sorted xs)

All-get : (a : ℕ) (xs : List ℕ) (k v : ℕ) → All (λ y. a ≤ y) xs → get_elem? xs k ≡ some v → a ≤ v
All-get a [] k v h e = absurd (none-ne-some v e)
All-get a (x ∷ xs) zero v (h, hs) e = omega (arith, some-injective x v e)
All-get a (x ∷ xs) (suc k) v (h, hs) e = All-get a xs k v hs e

below-none : (a : ℕ) (xs : List ℕ) → All (λ y. a ≤ y) xs → count (below a) xs ≡ 0
below-none a [] h = refl
below-none a (x ∷ xs) (h, hs) =
    let rest : count (below a) xs ≡ 0 = below-none a xs hs in ground arith

-- An element stands at its place in the order: as many elements are at most it, and no more are below.
record Ranked (v k : ℕ) (xs : List ℕ) : Type 0 where
  at_most_lem : suc k ≤ count (at_most v) xs
  below_lem : count (below v) xs ≤ k
  equal_lem : 0 < count (equal_to v) xs

get_elem?-Ranked :
    (xs : List ℕ) (k : ℕ)
    → Sorted xs
    → k < length xs
    → (v : ℕ) × ((get_elem? xs k ≡ some v) × Ranked v k xs)
get_elem?-Ranked [] k s h = absurd (omega arith)
get_elem?-Ranked (x ∷ xs) zero (a, s) h =
    let none_below : count (below x) xs ≡ 0 = below-none x xs a in
    (
      x,
      (
        refl,
        record { at_most_lem = ground arith; below_lem = ground arith; equal_lem = ground arith },
      ),
    )
get_elem?-Ranked (x ∷ xs) (suc k) (a, s) h =
    let (v, (e, r)) = get_elem?-Ranked xs k s (omega arith) in
    let le : x ≤ v = All-get x xs k v a e in
    let p : suc k ≤ count (at_most v) xs = r.at_most_lem in
    let q : count (below v) xs ≤ k = r.below_lem in
    let o : 0 < count (equal_to v) xs = r.equal_lem in
    (
      v,
      (
        e,
        record { at_most_lem = ground arith; below_lem = ground arith; equal_lem = ground arith },
      ),
    )

-- `round` is within one half of the quotient, here of two hundredths
round-200 : (n : ℕ) → (2 * n ≤ 400 * round n 200 + 200) × (400 * round n 200 ≤ 2 * n + 200)
unfolding round
round-200 n = (ground arith, ground arith)

rank-bounds :
    (p n : ℕ)
    → p ≤ 100
    → 0 < n
    → (rank p n < n) × ((p * n ≤ 100 * suc (rank p n)) × (100 * rank p n ≤ p * n))
unfolding rank
rank-bounds p n h h' =
    let m = p * n in
    let le : p * n ≤ 100 * n = mul-le-mul_right n h in
    let (a, b) = round-200 (2 * (p * n) + 100) in (omega arith, (omega arith, omega arith))

-- The percentile `p` of samples, where there are any, is one of them; at least `p` per cent of the
-- samples are at most it, and at most `p` per cent are below it.
pub pct-share :
    (xs : List ℕ) (p : ℕ)
    → p ≤ 100
    → 0 < length xs
    → (v : ℕ) × ((pct xs p ≡ some v)
        × ((0 < count (equal_to v) xs)
            × ((p * length xs ≤ 100 * count (at_most v) xs)
                × (100 * count (below v) xs ≤ p * length xs))))
unfolding pct
pct-share [] p h h' = absurd (omega arith)
pct-share (x ∷ xs) p h h' =
    let ys = x ∷ xs in
    let (b, (lo, hi)) = rank-bounds p (length ys) h h' in
    let (v, (e, r)) =
      get_elem?-Ranked (sorted ys) (rank p (length ys)) (sorted-Sorted ys)
        (omega (arith, length-sorted ys)) in
    (
      v,
      (
        e,
        (
          omega (arith, r.equal_lem, count-sorted (equal_to v) ys),
          (
            omega (arith, r.at_most_lem, count-sorted (at_most v) ys),
            omega (arith, r.below_lem, count-sorted (below v) ys),
          ),
        ),
      ),
    )

round_mono : (n m : ℕ) → n ≤ m → round n 200 ≤ round m 200
unfolding round
round_mono n m h = ground arith

rank_mono : (p q n : ℕ) → p ≤ q → rank p n ≤ rank q n
unfolding rank
rank_mono p q n h =
    let le : p * n ≤ q * n = mul-le-mul_right n h in
    let r : round (2 * (p * n) + 100) 200 ≤ round (2 * (q * n) + 100) 200 =
      round_mono (2 * (p * n) + 100) (2 * (q * n) + 100) (omega arith) in
    omega arith

get_elem?-mono :
    (xs : List ℕ) (i j u v : ℕ)
    → Sorted xs
    → i ≤ j
    → get_elem? xs i ≡ some u
    → get_elem? xs j ≡ some v
    → u ≤ v
get_elem?-mono [] i j u v s h e f = absurd (none-ne-some u e)
get_elem?-mono (x ∷ xs) zero zero u v s h e f =
    omega (arith, some-injective x u e, some-injective x v f)
get_elem?-mono (x ∷ xs) zero (suc j) u v (a, s) h e f =
    omega (arith, some-injective x u e, All-get x xs j v a f)
get_elem?-mono (x ∷ xs) (suc i) zero u v s h e f = absurd (omega arith)
get_elem?-mono (x ∷ xs) (suc i) (suc j) u v (a, s) h e f =
    get_elem?-mono xs i j u v s (omega arith) e f

-- A higher percentile of the same samples is never a lower number.
pub pct_mono : (xs : List ℕ) (p q u v : ℕ) → p ≤ q → pct xs p ≡ some u → pct xs q ≡ some v → u ≤ v
unfolding pct
pct_mono [] p q u v h e f = absurd (none-ne-some u e)
pct_mono (x ∷ xs) p q u v h e f =
    get_elem?-mono (sorted (x ∷ xs)) (rank p (length (x ∷ xs))) (rank q (length (x ∷ xs))) u v
      (sorted-Sorted (x ∷ xs)) (rank_mono p q (length (x ∷ xs)) h) e f
