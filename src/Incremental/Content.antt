-- ===== src/Incremental/Content.antt =====
-- What is heard of the clauses is what was pushed.
use streaming_tts_serving.Base.{
  ℕ, ◌≡◌, refl, sym, ap, ◌∙◌, List, [], ◌∷◌, ◌++◌, append_assoc, append-nil, map, map-append, arith,
  length, if_both, ◌≤◌, All,
}
use streaming_tts_serving.Base.Text.{Text, strip, solid, keep}
use streaming_tts_serving.Base.TextLaws.{solid-append, solid-strip}
use streaming_tts_serving.TextNorm.Words.{Engine}
use streaming_tts_serving.TextNorm.Split.Laws.{
  solids, solids-append, solid-space, solids-split_for_streaming, LongButLast,
  split_for_streaming-LongButLast,
}
use streaming_tts_serving.Incremental.{
  ClauseResult, Synthesizer, joined, all_but_last, synth, hit, miss, emit, emit_all, push_parts,
  push, flush, stream_reply,
}

abbrev pub texts : {L : Type 0} → List (ClauseResult L) → List Text
texts = map (λ r. r.text)

-- what is heard of the fragments
unfoldable pub pushed : List Text → Text
pushed [] = []
pushed (f ∷ fs) = solid f ++ pushed fs

solid-joined : (buf fragment : Text) → solid (joined buf fragment) ≡ solid buf ++ solid fragment
unfolding joined
solid-joined buf fragment =
    if_both (λ t. solid t ≡ solid buf ++ solid fragment) _ (buf ++ (b' ' ∷ fragment))
      (buf ++ fragment) (solid-space buf fragment) (solid-append buf fragment)

solids-all_but_last :
    (p : Text) (ps : List Text)
    → solids (all_but_last p ps).0 ++ solid (all_but_last p ps).1 ≡ solid p ++ solids ps
unfolding all_but_last solids
solids-all_but_last p [] = sym (append-nil (solid p))
solids-all_but_last p (q ∷ ps) =
    append_assoc (solid p) _ _ ∙ ap (λ t. solid p ++ t) (solids-all_but_last q ps)

module _ {L : Type 0} (engine : Engine) (latents_fn : ℕ → Text → L) where
  synth-buf : (s : Synthesizer L) (clause : Text) → (synth engine latents_fn s clause).0.buf ≡ s.buf
  unfolding synth hit miss
  synth-buf s clause = ground arith

  emit-text :
      (s : Synthesizer L) (clause : Text)
      → ((emit engine latents_fn s clause).0.buf ≡ s.buf)
        × ((emit engine latents_fn s clause).1.text ≡ clause)
  unfolding emit
  emit-text s clause = (synth-buf s clause, refl)

  -- The loop yields one result for each clause, in order, and leaves the buffer alone.
  emit_all-texts :
      (s : Synthesizer L) (cs : List Text)
      → ((emit_all engine latents_fn s cs).0.buf ≡ s.buf)
        × (texts (emit_all engine latents_fn s cs).1 ≡ cs)
  unfolding emit_all
  emit_all-texts s [] = (refl, refl)
  emit_all-texts s (c ∷ cs) =
      let (b, t) = emit-text s c in
      let (b', t') = emit_all-texts (emit engine latents_fn s c).0 cs in (b' ∙ b, cc)

  push_parts-heard :
      (s : Synthesizer L) (ps : List Text)
      → solids ps ≡ solid s.buf
      → solids (texts (push_parts engine latents_fn s ps).1)
          ++ solid (push_parts engine latents_fn s ps).0.buf
        ≡ solid s.buf
  unfolding push_parts
  push_parts-heard s [] h = unfold solids in refl
  push_parts-heard s (p ∷ []) h = unfold solids in refl
  push_parts-heard s (p ∷ q ∷ ps) h =
      let (b, t) =
        emit_all-texts (record s { buf = (all_but_last p (q ∷ ps)).1 })
          (all_but_last p (q ∷ ps)).0 in
      rw (t, b) (solids-all_but_last p (q ∷ ps) ∙ unfold solids in h)

  -- No fragment is lost or reordered: what `push` yields, and then what it keeps in the buffer,
  -- reads as the buffer and the fragment did, but for white space.
  pub push-heard :
      (s : Synthesizer L) (fragment : Text)
      → solids (texts (push engine latents_fn s fragment).1)
          ++ solid (push engine latents_fn s fragment).0.buf
        ≡ solid s.buf ++ solid fragment
  unfolding push
  push-heard s fragment =
      push_parts-heard _ _ (solids-split_for_streaming s.min_chars (joined s.buf fragment))
      ∙ solid-joined s.buf fragment

  flush-heard :
      (s : Synthesizer L)
      → (solids (texts (flush engine latents_fn s).1) ≡ solid s.buf)
        × ((flush engine latents_fn s).0.buf ≡ [])
  unfolding flush
  flush-heard s = go (strip s.buf) refl
    where
      result : Text → Synthesizer L × List (ClauseResult L)
      result [] = (record s { buf = [] }, [])
      result (c ∷ t) =
          let (u, r) = emit engine latents_fn (record s { buf = [] }) (c ∷ t) in (u, r ∷ [])

      go :
          (tail : Text)
          → strip s.buf ≡ tail
          → (solids (texts (result tail).1) ≡ solid s.buf) × ((result tail).0.buf ≡ [])
      go [] e = (unfold solids in (sym blank ∙ ap solid (sym e) ∙ solid-strip s.buf), refl)
        where
          blank : solid [] ≡ []
          blank = unfold solid keep in refl
      go (c ∷ t) e =
          let (b, x) = emit-text (record s { buf = [] }) (c ∷ t) in
          (
            rw x (
                unfold solids in
                (append-nil (solid (c ∷ t)) ∙ ap solid (sym e) ∙ solid-strip s.buf)),
            b,
          )

  -- A reply pushed in any fragments and flushed is spoken whole and in order: the clauses read as
  -- the buffer and all fragments do, but for white space, and the buffer ends empty.
  pub stream_reply-heard :
      (s : Synthesizer L) (fs : List Text)
      → (solids (texts (stream_reply engine latents_fn s fs).1) ≡ solid s.buf ++ pushed fs)
        × ((stream_reply engine latents_fn s fs).0.buf ≡ [])
  unfolding stream_reply pushed
  stream_reply-heard s [] = let (h, b) = flush-heard s in (h ∙ sym (append-nil (solid s.buf)), b)
  stream_reply-heard s (f ∷ fs) =
      let t = (push engine latents_fn s f).0 in
      let rs = (push engine latents_fn s f).1 in
      let rs' = (stream_reply engine latents_fn t fs).1 in
      let (h, b) = stream_reply-heard t fs in
      (
        ap solids (map-append (λ (r : ClauseResult L). r.text) rs rs')
            ∙ solids-append (texts rs) (texts rs')
            ∙ ap (λ x. solids (texts rs) ++ x) h
            ∙ sym (append_assoc (solids (texts rs)) (solid t.buf) (pushed fs))
            ∙ ap (λ x. x ++ pushed fs) (push-heard s f)
            ∙ append_assoc (solid s.buf) (solid f) (pushed fs),
        b,
      )

  long_all_but_last :
      (n : ℕ) (p : Text) (ps : List Text)
      → LongButLast n (p ∷ ps)
      → All (λ c. n ≤ length c) (all_but_last p ps).0
  unfolding all_but_last
  long_all_but_last n p [] h = tt
  long_all_but_last n p (q ∷ ps) h = (h.0, long_all_but_last n q ps h.1)

  push_parts-long :
      (s : Synthesizer L) (n : ℕ) (ps : List Text)
      → LongButLast n ps
      → All (λ c. n ≤ length c) (texts (push_parts engine latents_fn s ps).1)
  unfolding push_parts
  push_parts-long s n [] h = tt
  push_parts-long s n (p ∷ []) h = tt
  push_parts-long s n (p ∷ q ∷ ps) h =
      rw
        (emit_all-texts (record s { buf = (all_but_last p (q ∷ ps)).1 })
          (all_but_last p (q ∷ ps)).0).1
        (long_all_but_last n p (q ∷ ps) h)

  -- `push` yields no clause shorter than `min_chars`.
  pub push-long :
      (s : Synthesizer L) (fragment : Text)
      → All (λ c. s.min_chars ≤ length c) (texts (push engine latents_fn s fragment).1)
  unfolding push
  push-long s fragment =
      push_parts-long _ s.min_chars _
        (split_for_streaming-LongButLast s.min_chars (joined s.buf fragment))
