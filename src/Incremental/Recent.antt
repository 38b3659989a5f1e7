-- ===== src/Incremental/Recent.antt =====
-- Which clauses the cache remembers of a reply.
use streaming_tts_serving.Base.{
  ℕ, ◌≡◌, ◌⊎◌, inl, inr, refl, ap, ◌∙◌, List, [], ◌∷◌, arith, map, map-append, Option-cases,
}
use streaming_tts_serving.Base.Text.{Text, strip}
use streaming_tts_serving.TextNorm.{normalize}
use streaming_tts_serving.TextNorm.Words.{Engine}
use streaming_tts_serving.TextNorm.Split.{split_for_streaming}
use streaming_tts_serving.Incremental.{
  ClauseResult, Synthesizer, joined, all_but_last, lookup, init, hit, miss, synth, emit, emit_all,
  push_parts, push, flush, stream_reply,
}
use streaming_tts_serving.Incremental.Cache.{IsValid, init-IsValid}
use streaming_tts_serving.Incremental.Order.{
  recency, newest, keys, recency-append, IsNewest, IsNewest-hit, IsNewest-miss, newest_lem,
}
use streaming_tts_serving.Incremental.Emits.{emit-IsValid, rebuffered, push-Emits}

List-cases : (s : Text) → (s ≡ []) ⊎ ((c : ℕ) × (t : Text) × (s ≡ c ∷ t))
List-cases [] = inl refl
List-cases (c ∷ t) = inr (c, t, refl)

module _ {L : Type 0} (engine : Engine) (latents_fn : ℕ → Text → L) where
  -- the normalized texts of the clauses that came out
  abbrev pub asked : List (ClauseResult L) → List Text
  asked = map (λ r. normalize engine r.text)

  abbrev pub Recent : ℕ → List Text → Synthesizer L → Type 0
  Recent n past s = (s.cache_size ≡ n) × IsNewest n past s.cache

  synth-Recent :
      (n : ℕ) (past : List Text) (s : Synthesizer L) (clause : Text)
      → IsValid engine latents_fn s
      → Recent n past s
      → Recent n (recency past (normalize engine clause ∷ [])) (synth engine latents_fn s clause).0
  unfolding synth hit miss
  synth-Recent n past s clause w (c, r) =
      let k = normalize engine clause in
      elim (Option-cases (lookup k s.cache)) [
        | inl e ↦ rw (synth, e) (c, rw c (IsNewest-miss n past s.cache k _ e r))
        | inr (v, e) ↦ rw (synth, e) (c, IsNewest-hit n past s.cache k v w.distinct e r)
      ]

  emit-Recent :
      (n : ℕ) (past : List Text) (s : Synthesizer L) (clause : Text)
      → IsValid engine latents_fn s
      → Recent n past s
      → Recent n
          (recency past (asked ((emit engine latents_fn s clause).1 ∷ [])))
          (emit engine latents_fn s clause).0
  unfolding emit
  emit-Recent n past s clause w r = synth-Recent n past s clause w r

  emit_all-Recent :
      (n : ℕ) (past : List Text) (s : Synthesizer L) (cs : List Text)
      → IsValid engine latents_fn s
      → Recent n past s
      → Recent n
          (recency past (asked (emit_all engine latents_fn s cs).1))
          (emit_all engine latents_fn s cs).0
  unfolding emit_all
  emit_all-Recent n past s [] w r = r
  emit_all-Recent n past s (c ∷ cs) w r =
      emit_all-Recent n (recency past (asked ((emit engine latents_fn s c).1 ∷ [])))
        (emit engine latents_fn s c).0 cs (emit-IsValid engine latents_fn s c w).0
        (emit-Recent n past s c w r)

  push_parts-Recent :
      (n : ℕ) (past : List Text) (s : Synthesizer L) (ps : List Text)
      → IsValid engine latents_fn s
      → Recent n past s
      → Recent n
          (recency past (asked (push_parts engine latents_fn s ps).1))
          (push_parts engine latents_fn s ps).0
  unfolding push_parts
  push_parts-Recent n past s [] w r = r
  push_parts-Recent n past s (p ∷ []) w r = r
  push_parts-Recent n past s (p ∷ q ∷ ps) w r =
      emit_all-Recent n past (record s { buf = (all_but_last p (q ∷ ps)).1 })
        (all_but_last p (q ∷ ps)).0 (rebuffered engine latents_fn s _ w) r

  push-Recent :
      (n : ℕ) (past : List Text) (s : Synthesizer L) (fragment : Text)
      → IsValid engine latents_fn s
      → Recent n past s
      → Recent n
          (recency past (asked (push engine latents_fn s fragment).1))
          (push engine latents_fn s fragment).0
  unfolding push
  push-Recent n past s fragment w r =
      push_parts-Recent n past (record s { buf = joined s.buf fragment })
        (split_for_streaming s.min_chars (joined s.buf fragment))
        (rebuffered engine latents_fn s _ w) r

  flush-Recent :
      (n : ℕ) (past : List Text) (s : Synthesizer L)
      → IsValid engine latents_fn s
      → Recent n past s
      → Recent n (recency past (asked (flush engine latents_fn s).1)) (flush engine latents_fn s).0
  unfolding flush
  flush-Recent n past s w r = elim (List-cases (strip s.buf)) [
    | inl e ↦ rw (flush, e) r
    | inr (c, t, e) ↦
        rw (flush, e)
          (emit-Recent n past (record s { buf = [] }) (c ∷ t) (rebuffered engine latents_fn s [] w)
            r)
  ]

  stream_reply-Recent :
      (n : ℕ) (past : List Text) (s : Synthesizer L) (fs : List Text)
      → IsValid engine latents_fn s
      → Recent n past s
      → Recent n
          (recency past (asked (stream_reply engine latents_fn s fs).1))
          (stream_reply engine latents_fn s fs).0
  unfolding stream_reply
  stream_reply-Recent n past s [] w r = flush-Recent n past s w r
  stream_reply-Recent n past s (f ∷ fs) w r =
      let (t, rs) = push engine latents_fn s f in
      let rs' = (stream_reply engine latents_fn t fs).1 in
      let joint =
        ap (recency past) (map-append (λ x. normalize engine x.text) rs rs')
        ∙ recency-append past (asked rs) (asked rs') in
      rw joint (
        stream_reply-Recent n (recency past (asked rs)) t fs (push-Emits engine latents_fn s f w).0
          (push-Recent n past s f w r))

  -- Behind a whole reply, pushed in any fragments to a new synthesizer, the cache holds the
  -- normalized texts of the last clauses: of all that came out, each counted once at the last time
  -- that it came, the newest as many as the cache has room for, the oldest of them first.
  pub stream_reply-newest :
      (cache_size min_chars : ℕ) (fragments : List Text)
      → keys (stream_reply engine latents_fn (init cache_size min_chars) fragments).0.cache
        ≡ newest cache_size (
            recency []
              (asked (stream_reply engine latents_fn (init cache_size min_chars) fragments).1))
  stream_reply-newest n m fs =
      let start : Recent n [] (init n m) =
        unfold init in (refl, ([], refl, omega arith, inl refl)) in
      let r = stream_reply-Recent n [] (init n m) fs (init-IsValid engine latents_fn n m) start in
      newest_lem n _ _ (r.1)
