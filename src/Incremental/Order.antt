-- ===== src/Incremental/Order.antt =====
-- The order of the cache: what is asked for goes to the end, and what is evicted comes from the front.
use streaming_tts_serving.Base.{
  ℕ, suc, ◌+◌, ◌-◌, ◌≤◌, ◌≡◌, ◌⊎◌, inl, inr, refl, sym, ap, ap₂, ◌∙◌, none, some, List, [], ◌∷◌,
  ◌++◌, append_assoc, arith, length, length-append, length-drop, take, drop, take-append-drop, map,
  map-append, if◌then◌else◌, Bool-cases, ltb,
}
use streaming_tts_serving.Base.Text.{Text, text_eq}
use streaming_tts_serving.Base.TextLaws.{text_eq_iff}
use streaming_tts_serving.Incremental.{lookup, remove, evict}
use streaming_tts_serving.Incremental.Cache.{Distinct, length-remove}

abbrev pub forget : Text → List Text → List Text
forget k [] = []
forget k (j ∷ ks) = let rest = forget k ks in if text_eq j k then rest else j ∷ rest

-- the keys that were asked for, each once, by the last time that it was
abbrev pub recency : List Text → List Text → List Text
recency past [] = past
recency past (k ∷ ks) = recency (forget k past ++ k ∷ []) ks

abbrev pub newest : ℕ → List Text → List Text
newest n ks = drop (length ks - n) ks

abbrev pub keys : {L : Type 0} → List (Text × L) → List Text
keys = map (λ e. e.0)

forget-append : (k : Text) (a b : List Text) → forget k (a ++ b) ≡ forget k a ++ forget k b
forget-append k [] b = refl
forget-append k (j ∷ a) b = ground (arith, forget-append k a b)

pub recency-append : (past a b : List Text) → recency past (a ++ b) ≡ recency (recency past a) b
recency-append past [] b = refl
recency-append past (k ∷ a) b = recency-append (forget k past ++ k ∷ []) a b

drop_all : (a b : List Text) → drop (length a) (a ++ b) ≡ b
drop_all [] b = refl
drop_all (x ∷ a) b = drop_all a b

again :
    (k : Text) (past older ks : List Text)
    → past ≡ older ++ ks
    → forget k past ++ k ∷ [] ≡ forget k older ++ (forget k ks ++ k ∷ [])
again k past older ks p =
    ap (λ t. forget k t ++ k ∷ []) p
    ∙ ap (λ t. t ++ k ∷ []) (forget-append k older ks)
    ∙ append_assoc (forget k older) (forget k ks) (k ∷ [])

module _ {L : Type 0} where
  forget_absent : (k : Text) (m : List (Text × L)) → lookup k m ≡ none → forget k (keys m) ≡ keys m
  unfolding lookup
  forget_absent k [] h = refl
  forget_absent k ((j, v) ∷ m) h = ground (arith, forget_absent k m)

  keys-remove :
      (k : Text) (m : List (Text × L)) → Distinct m → keys (remove k m) ≡ forget k (keys m)
  unfolding remove
  keys-remove k [] d = refl
  keys-remove k ((j, v) ∷ m) d = elim (Bool-cases (text_eq j k)) [
    | inl e ↦ let p : j ≡ k = (text_eq_iff j k).0 e in rw e (sym (forget_absent k m (rw p at d.0)))
    | inr e ↦ rw e (ap (λ ks. j ∷ ks) (keys-remove k m d.1))
  ]

  length-keys : (m : List (Text × L)) → length (keys m) ≡ length m
  length-keys [] = refl
  length-keys (e ∷ m) = ap suc (length-keys m)

  -- The cache is the end of what was asked for, and all of it where it has room.
  abbrev pub IsNewest : ℕ → List Text → List (Text × L) → Type 0
  IsNewest n past m =
      (older : List Text) × (past ≡ older ++ keys m)
      × (length m ≤ n)
      × ((older ≡ []) ⊎ (length m ≡ n))

  pub IsNewest-hit :
      (n : ℕ) (past : List Text) (m : List (Text × L)) (k : Text) (v : L)
      → Distinct m
      → lookup k m ≡ some v
      → IsNewest n past m
      → IsNewest n (forget k past ++ k ∷ []) (remove k m ++ (k, v) ∷ [])
  IsNewest-hit n past m k v d e (older, p, b, o) =
      let same : length (remove k m ++ (k, v) ∷ []) ≡ length m =
        length-append (remove k m) ((k, v) ∷ []) ∙ length-remove k m v e in
      let split =
        ap (λ t. t ++ k ∷ []) (sym (keys-remove k m d))
        ∙ sym (map-append (λ x. x.0) (remove k m) ((k, v) ∷ [])) in
      (
        forget k older,
        again k past older (keys m) p ∙ ap (λ t. forget k older ++ t) split,
        omega (arith, same),
        elim o [ inl q ↦ inl (ap (forget k) q) | inr q ↦ inr (same ∙ q) ],
      )

  pub IsNewest-miss :
      (n : ℕ) (past : List Text) (m : List (Text × L)) (k : Text) (v : L)
      → lookup k m ≡ none
      → IsNewest n past m
      → IsNewest n (forget k past ++ k ∷ []) (evict n (m ++ (k, v) ∷ []))
  unfolding evict
  IsNewest-miss n past m k v e (older, p, b, o) =
      let m' = m ++ (k, v) ∷ [] in
      let longer : length m' ≡ length m + 1 = length-append m ((k, v) ∷ []) in
      let asked : forget k past ++ k ∷ [] ≡ forget k older ++ keys m' =
        again k past older (keys m) p
        ∙ ap (λ t. forget k older ++ (t ++ k ∷ [])) (forget_absent k m e)
        ∙ ap (λ t. forget k older ++ t) (sym (map-append (λ x. x.0) m ((k, v) ∷ []))) in
      elim (Bool-cases (ltb n (length m'))) [
        | inr f ↦ rw f (
          forget k older,
          asked,
          ground arith,
          elim o [ inl q ↦ inl (ap (forget k) q) | inr q ↦ inr (ground arith) ],
        )
        | inl f ↦
            let full : length (drop 1 m') ≡ n = ground (arith, length-drop 1 m') in
            rw f (
              forget k older ++ keys (take 1 m'),
              asked
                  ∙ ap (λ t. forget k older ++ keys t) (sym (take-append-drop 1 m'))
                  ∙ ap (λ t. forget k older ++ t) (map-append (λ x. x.0) (take 1 m') (drop 1 m'))
                  ∙ sym (append_assoc (forget k older) (keys (take 1 m')) (keys (drop 1 m'))),
              omega (arith, full),
              inr full,
            )
      ]

  pub newest_lem :
      (n : ℕ) (past : List Text) (m : List (Text × L)) → IsNewest n past m → keys m ≡ newest n past
  newest_lem n past m (older, p, b, o) =
      let whole : length past ≡ length older + length m =
        ap length p ∙ length-append older (keys m) ∙ ap (λ n. length older + n) (length-keys m) in
      let cut : length past - n ≡ length older = elim o [
        | inl q ↦ omega (arith, whole, ap length q)
        | inr q ↦ omega (arith, whole, q)
      ] in
      sym (ap₂ drop cut p ∙ drop_all older (keys m))
