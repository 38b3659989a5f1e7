-- ===== src/Incremental/Cache.antt =====
-- The bounded cache of the synthesizer: its entries, its counters and what it answers.
use streaming_tts_serving.Base.{
  ℕ, ◌+◌, ◌≤◌, ◌<◌, ◌≡◌, inl, inr, refl, Bool, true, false, none, some, List, [], ◌∷◌, ◌++◌, All,
  All-append, arith, length, length-append, if◌then◌else◌, if_both, Option-cases, Bool-cases, ltb,
}
use streaming_tts_serving.Base.Text.{Text, text_eq}
use streaming_tts_serving.Base.TextLaws.{text_eq_iff}
use streaming_tts_serving.TextNorm.{normalize}
use streaming_tts_serving.TextNorm.Words.{Engine}
use streaming_tts_serving.Incremental.{Synthesizer, lookup, remove, init, evict, hit, miss, synth}

module _ {L : Type 0} where
  -- `key in self._cache`
  pub present : Text → List (Text × L) → Bool
  present k m = elim (lookup k m) [ none ↦ false | some v ↦ true ]

  present-some : (k : Text) (m : List (Text × L)) (v : L) → lookup k m ≡ some v → true ≡ present k m
  unfolding present
  present-some k m v e = ground arith

  present-none : (k : Text) (m : List (Text × L)) → lookup k m ≡ none → false ≡ present k m
  unfolding present
  present-none k m e = ground arith

  -- no key stands twice
  abbrev pub Distinct : List (Text × L) → Type 0
  Distinct [] = Unit
  Distinct ((k, v) ∷ m) = (lookup k m ≡ none) × Distinct m

  lookup-append :
      (k : Text) (m n : List (Text × L))
      → lookup k m ≡ none
      → lookup k n ≡ none
      → lookup k (m ++ n) ≡ none
  unfolding lookup
  lookup-append k [] n h h' = h'
  lookup-append k ((j, v) ∷ m) n h h' = ground (arith, lookup-append k m n)

  snoc-Distinct :
      (k : Text) (v : L) (m : List (Text × L))
      → lookup k m ≡ none
      → Distinct m
      → Distinct (m ++ (k, v) ∷ [])
  snoc-Distinct k v [] h d = (unfold lookup in refl, tt)
  snoc-Distinct k v ((j, w) ∷ m) h d = (
    lookup-append j m ((k, v) ∷ []) d.0
        (unfold lookup in ground (arith, text_eq_iff j k, text_eq_iff k j, h)),
    snoc-Distinct k v m (unfold lookup in ground (arith, h)) d.1,
  )

  lookup-remove_ne :
      (j k : Text) (m : List (Text × L)) → lookup j m ≡ none → lookup j (remove k m) ≡ none
  unfolding lookup remove
  lookup-remove_ne j k [] h = h
  lookup-remove_ne j k ((i, v) ∷ m) h = ground (arith, lookup-remove_ne j k m)

  lookup-remove : (k : Text) (m : List (Text × L)) → Distinct m → lookup k (remove k m) ≡ none
  unfolding lookup remove
  lookup-remove k [] d = refl
  lookup-remove k ((j, v) ∷ m) d = ground (arith, lookup-remove k m d.1, text_eq_iff j k, d.0)

  remove-Distinct : (k : Text) (m : List (Text × L)) → Distinct m → Distinct (remove k m)
  unfolding remove
  remove-Distinct k [] d = tt
  remove-Distinct k ((j, v) ∷ m) d =
      if_both Distinct (text_eq j k) m ((j, v) ∷ remove k m) d.1
        (lookup-remove_ne j k m d.0, remove-Distinct k m d.1)

  pub length-remove :
      (k : Text) (m : List (Text × L)) (v : L)
      → lookup k m ≡ some v
      → length (remove k m) + 1 ≡ length m
  unfolding lookup remove
  length-remove k [] v h = cc
  length-remove k ((j, w) ∷ m) v h = ground (arith, length-remove k m v)

  evict-Distinct : (n : ℕ) (m : List (Text × L)) → Distinct m → Distinct (evict n m)
  unfolding evict
  evict-Distinct n [] d = if_both Distinct (ltb n 0) [] [] tt tt
  evict-Distinct n ((k, v) ∷ m) d = if_both Distinct _ m ((k, v) ∷ m) d.1 d

  length-evict-le : (n : ℕ) (m : List (Text × L)) → length m ≤ n + 1 → length (evict n m) ≤ n
  unfolding evict
  length-evict-le n [] h = ground arith
  length-evict-le n (e ∷ m) h = ground arith

  module _ (P : Text × L → Type 0) where
    remove-All : (k : Text) (m : List (Text × L)) → All P m → All P (remove k m)
    unfolding remove
    remove-All k [] h = tt
    remove-All k ((j, v) ∷ m) h =
        if_both (All P) (text_eq j k) m ((j, v) ∷ remove k m) h.1 (h.0, remove-All k m h.1)

    evict-All : (n : ℕ) (m : List (Text × L)) → All P m → All P (evict n m)
    unfolding evict
    evict-All n [] h = if_both (All P) (ltb n 0) [] [] tt tt
    evict-All n (e ∷ m) h = if_both (All P) _ m (e ∷ m) h.1 h

    lookup-All : (k : Text) (m : List (Text × L)) (v : L) → All P m → lookup k m ≡ some v → P (k, v)
    unfolding lookup
    lookup-All k [] v h e = cc
    lookup-All k ((j, w) ∷ m) v h e = elim (Bool-cases (text_eq j k)) [
      | inl x ↦
          let p : j ≡ k = (text_eq_iff j k).0 x in
          let q : w ≡ v = ground arith in rw (← p) (rw (← q) h.0)
      | inr x ↦ lookup-All k m v h.1 (ground arith)
    ]

module _ {L : Type 0} (engine : Engine) (latents_fn : ℕ → Text → L) where
  -- An entry was made by one of the first `calls` calls of `latents_fn`, on a clause that
  -- normalizes to its key.
  abbrev pub MadeBy : ℕ → Text × L → Type 0
  MadeBy calls entry =
      (n : ℕ) × (clause : Text) × (n < calls)
      × (normalize engine clause ≡ entry.0)
      × (latents_fn n clause ≡ entry.1)

  pub record IsValid (s : Synthesizer L) : Type 0 where
    pub bounded : length s.cache ≤ s.cache_size
    pub distinct : Distinct s.cache
    pub sound : All (MadeBy s.stats.misses) s.cache
    pub counted : s.stats.hits + s.stats.misses ≡ s.stats.clauses_emitted
    pub indexed : s.emitted ≡ s.stats.clauses_emitted

  pub init-IsValid : (cache_size min_chars : ℕ) → IsValid (init cache_size min_chars)
  unfolding init
  init-IsValid cache_size min_chars = record {
    bounded = omega arith;
    distinct = tt;
    sound = tt;
    counted = refl;
    indexed = refl;
  }

  more_calls : (n n' : ℕ) (m : List (Text × L)) → n ≤ n' → All (MadeBy n) m → All (MadeBy n') m
  more_calls n n' [] h a = tt
  more_calls n n' (e ∷ m) h ((i, c, p, q, r), a) =
      ((i, c, omega arith, q, r), more_calls n n' m h a)

  -- `_synth` keeps the cache well formed; the counters are not yet even with the clauses.
  pub record Keeps (s : Synthesizer L) (clause : Text) (t : Synthesizer L) (v : L) (cached : Bool)
      : Type 0 where
    pub bounded : length t.cache ≤ t.cache_size
    pub distinct : Distinct t.cache
    pub sound : All (MadeBy t.stats.misses) t.cache
    pub counts : t.stats.hits + t.stats.misses ≡ s.stats.hits + s.stats.misses + 1
    pub same : (t.emitted ≡ s.emitted) × (t.stats.clauses_emitted ≡ s.stats.clauses_emitted)
    pub answer : MadeBy t.stats.misses (normalize engine clause, v)
    pub reported : cached ≡ present (normalize engine clause) s.cache
    pub called : t.stats.misses ≡ (if cached then s.stats.misses else s.stats.misses + 1)

  hit-Keeps :
      (s : Synthesizer L) (clause : Text) (v : L)
      → IsValid s
      → lookup (normalize engine clause) s.cache ≡ some v
      → Keeps s clause (hit engine latents_fn s (normalize engine clause) v) v true
  unfolding hit
  hit-Keeps s clause v w e =
      let k = normalize engine clause in
      let made = lookup-All (MadeBy s.stats.misses) k s.cache v w.sound e in
      record {
        bounded = omega (
          arith,
          length-append (remove k s.cache) ((k, v) ∷ []),
          length-remove k s.cache v e,
          w.bounded,
        );
        distinct =
            snoc-Distinct k v (remove k s.cache) (lookup-remove k s.cache w.distinct)
              (remove-Distinct k s.cache w.distinct);
        sound =
            All-append _ (remove k s.cache) ((k, v) ∷ []) (remove-All _ k s.cache w.sound)
              (made, tt);
        counts = omega arith;
        same = (refl, refl);
        answer = made;
        reported = present-some k s.cache v e;
        called = refl;
      }

  miss-Keeps :
      (s : Synthesizer L) (clause : Text)
      → IsValid s
      → lookup (normalize engine clause) s.cache ≡ none
      → Keeps s clause
          (miss engine latents_fn s (normalize engine clause) (latents_fn s.stats.misses clause))
          (latents_fn s.stats.misses clause)
          false
  unfolding miss
  miss-Keeps s clause w e =
      let k = normalize engine clause in
      let v = latents_fn s.stats.misses clause in
      let made : MadeBy (s.stats.misses + 1) (k, v) =
        (s.stats.misses, clause, omega arith, refl, refl) in
      record {
        bounded =
            length-evict-le s.cache_size (s.cache ++ (k, v) ∷ [])
              (omega (arith, length-append s.cache ((k, v) ∷ []), w.bounded));
        distinct = evict-Distinct s.cache_size _ (snoc-Distinct k v s.cache e w.distinct);
        sound = evict-All _ s.cache_size (s.cache ++ (k, v) ∷ []) (
            All-append _ s.cache ((k, v) ∷ [])
              (more_calls s.stats.misses (s.stats.misses + 1) s.cache (omega arith) w.sound)
              (made, tt));
        counts = omega arith;
        same = (refl, refl);
        answer = made;
        reported = present-none k s.cache e;
        called = refl;
      }

  -- `_synth` keeps the cache, counts one hit or one miss, and answers latents that were made for a
  -- clause of the same normalized text; it reports a cached answer exactly if the key was present.
  pub synth-Keeps :
      (s : Synthesizer L) (clause : Text)
      → IsValid s
      → Keeps s clause
          (synth engine latents_fn s clause).0
          (synth engine latents_fn s clause).1
          (synth engine latents_fn s clause).2
  unfolding synth
  synth-Keeps s clause w = elim (Option-cases (lookup (normalize engine clause) s.cache)) [
    | inl e ↦ rw (e, synth) (miss-Keeps s clause w e)
    | inr (v, e) ↦ rw (e, synth) (hit-Keeps s clause v w e)
  ]
