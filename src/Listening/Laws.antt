-- ===== src/Listening/Laws.antt =====
-- What is listened to is the decode of the whole utterance.
use native.Mathlib.Nat.{zero-mul, mul-le-mul_right}
use streaming_tts_serving.Base.{
  ℕ, zero, suc, ◌+◌, ◌-◌, ◌*◌, ◌≤◌, ◌<◌, ◌≡◌, ◌⊎◌, ◌∙◌, inl, inr, sym, ap, min, List, ◌++◌, length,
  slice, slice-append, slice_all, true, slice_empty, length-slice, flat_map, refl, [], ◌∷◌, ltb,
  Bool-cases, arith,
}
use streaming_tts_serving.Chunked.Decode.{Local, offset}
use streaming_tts_serving.Base.Result.{Result, ok, raise}
use streaming_tts_serving.Listening.{
  piece, DecodeError, engine, nothing_to_join, concatenate, decode, kept, decode_from, chunked_trt,
}

-- A piece holds its frames and the context at either side, or ends where the utterance does.
piece_lem :
    (total a b : ℕ)
    → a < b
    → b ≤ total
    → let p = piece total a b in
      (p.0 ≤ a)
      × (b ≤ p.1)
      × (p.1 ≤ total)
      × ((p.0 ≡ 0) ⊎ (p.0 + 13 ≤ a))
      × ((p.1 ≡ total) ⊎ (b + 13 ≤ p.1))
unfolding piece
piece_lem total a b h h' = ground arith

-- It has as many frames as the engine takes.
piece_length :
    (total a b : ℕ)
    → a < b
    → b ≤ a + 50
    → b ≤ total
    → 14 ≤ total
    → let p = piece total a b in (14 ≤ p.1 - p.0) × (p.1 - p.0 ≤ 76)
unfolding piece
piece_length total a b h w h' n = ground arith

module _ {E F S : Type 0} (runner : List F → Result E (List S)) (decoder : List F → List S) where
  -- The engine computes the decoder on 14 to 76 frames.
  abbrev pub Takes : Type 0
  Takes = (zs : List F) → 14 ≤ length zs → length zs ≤ 76 → runner zs ≡ ok (decoder zs)

  decode-Takes :
      (zs : List F) → Takes → 14 ≤ length zs → length zs ≤ 76 → decode runner zs ≡ ok (decoder zs)
  unfolding decode
  decode-Takes zs t h h' = rw (decode, t zs h h') refl

  kept-slice :
      (hop field : ℕ) (z : List F) (a b : ℕ)
      → Local decoder hop field
      → Takes
      → field ≤ 13
      → 14 ≤ length z
      → a < b
      → b ≤ a + 50
      → b ≤ length z
      → kept runner z hop a b ≡ ok (slice (a * hop) (b * hop) (decoder z))
  unfolding kept
  kept-slice hop field z a b l t f n h w h' =
      let (lo, hi) = piece (length z) a b in
      let (first, last, inside, left, right) = piece_lem (length z) a b h h' in
      let (least, most) = piece_length (length z) a b h w h' n in
      let size = length-slice lo hi z (omega arith) inside in
      rw (decode-Takes (slice lo hi z) t (omega (arith, size)) (omega (arith, size))) (
        ap (λ n. ok (slice ((a - lo) * hop) n (decoder (slice lo hi z))))
          (offset lo a b hop first (omega arith))
        ∙ ap ok (
            l.local_lem z lo a b hi first (omega arith) last inside (wider lo left)
              (further hi right)))
    where
      wider : (lo : ℕ) → (lo ≡ 0) ⊎ (lo + 13 ≤ a) → (lo ≡ 0) ⊎ (lo + field ≤ a)
      wider lo w = ground arith

      further : (hi : ℕ) → (hi ≡ length z) ⊎ (b + 13 ≤ hi) → (hi ≡ length z) ⊎ (b + field ≤ hi)
      further hi w = ground arith

  decode_from-slice :
      (hop field : ℕ) (z : List F) (fuel a : ℕ)
      → Local decoder hop field
      → Takes
      → field ≤ 13
      → 14 ≤ length z
      → length z ≤ fuel + a
      → a ≤ length z
      → (ws : List (List S)) × (decode_from runner fuel z hop a ≡ ok ws)
        × (flat_map (λ x. x) ws ≡ slice (a * hop) (length z * hop) (decoder z))
        × (a < length z → 0 < length ws)
  unfolding decode_from mathlib.Core.List.flat_map
  decode_from-slice hop field z zero a l t f n h h' = (
    [],
    refl,
    sym (slice_empty (a * hop) (length z * hop) (decoder z) (mul-le-mul_right hop (omega arith))),
    λ more. omega arith,
  )
  decode_from-slice hop field z (suc fuel) a l t f n h h' = elim (Bool-cases (ltb a (length z))) [
    | inr e ↦ (
      [],
      rw (decode_from, e) refl,
      sym (
          slice_empty (a * hop) (length z * hop) (decoder z) (mul-le-mul_right hop (ground arith))),
      λ more. ground arith,
    )
    | inl e ↦
        let b = min (a + 50) (length z) in
        let more : a < length z = ground arith in
        let first = kept-slice hop field z a b l t f n (omega arith) (omega arith) (omega arith) in
        let (ws, rest, joined, some_left) =
          decode_from-slice hop field z fuel b l t f n (omega arith) (omega arith) in
        (
          slice (a * hop) (b * hop) (decoder z) ∷ ws,
          rw (e, first, rest) refl,
          ap (λ xs. slice (a * hop) (b * hop) (decoder z) ++ xs) joined
              ∙ slice-append (a * hop) (b * hop) (length z * hop) (decoder z)
                  (mul-le-mul_right hop (omega arith)) (mul-le-mul_right hop (omega arith)),
          λ more. omega arith,
        )
  ]

  concatenate-ok :
      (ws : List (List S)) → 0 < length ws → concatenate {E = E} ws ≡ ok (flat_map (λ x. x) ws)
  unfolding concatenate mathlib.Core.List.flat_map
  concatenate-ok [] h = absurd (omega arith)
  concatenate-ok (w ∷ ws) h = refl

  -- For an utterance of 14 frames or more the engine is never called outside its 14 to 76 frames, and the
  -- audio is what the network that it computes makes of the whole utterance: the loop ends, and no sample is
  -- lost, repeated or changed by the pieces, where the network's receptive field is at most the 13 frames
  -- of context.
  pub chunked_trt_lem :
      (hop field : ℕ) (z : List F)
      → Local decoder hop field
      → Takes
      → field ≤ 13
      → 14 ≤ length z
      → chunked_trt runner z hop ≡ ok (decoder z)
  unfolding chunked_trt
  chunked_trt_lem hop field z l t f n =
      let (ws, e, joined, some_left) =
        decode_from-slice hop field z (length z) 0 l t f n (omega arith) (omega arith) in
      rw e (
        concatenate-ok ws (some_left (omega arith))
        ∙ ap ok (
            joined
            ∙ ap (λ n. slice n (length z * hop) (decoder z)) (zero-mul hop)
            ∙ slice_all (length z * hop) (decoder z) (omega (arith, l.length_lem z))))

module _ {E F S : Type 0} (runner : List F → Result E (List S)) where
  -- An utterance of fewer frames than the engine takes is not decoded: the engine refuses its one piece, and
  -- of no frame there is nothing to join.
  chunked_trt_short :
      (hop : ℕ) (z : List F)
      → ((zs : List F) → length zs < 14 → (x : E) × (runner zs ≡ raise x))
      → length z < 14
      → (x : DecodeError E) × (chunked_trt runner z hop ≡ raise x)
  unfolding chunked_trt decode_from concatenate kept decode
  chunked_trt_short hop [] refuses h = (nothing_to_join, refl)
  chunked_trt_short hop (f ∷ z) refuses h =
      let p = piece (length (f ∷ z)) 0 (min (0 + 50) (length (f ∷ z))) in
      let (first, last, inside, left, right) =
        piece_lem (length (f ∷ z)) 0 (min (0 + 50) (length (f ∷ z))) (omega arith) (omega arith) in
      let size = length-slice (p.0) (p.1) (f ∷ z) (omega arith) inside in
      let (x, e) = refuses (slice (p.0) (p.1) (f ∷ z)) (omega (arith, size)) in
      let some_left : ltb 0 (length (f ∷ z)) ≡ true = ground arith in
      (engine x, rw (chunked_trt, decode_from, some_left, kept, decode, e) refl)
