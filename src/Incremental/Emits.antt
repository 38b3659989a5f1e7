-- ===== src/Incremental/Emits.antt =====
-- What a call of `push` or `flush` yields and leaves.
use streaming_tts_serving.Base.{ℕ, ◌+◌, ◌≡◌, List, [], ◌∷◌, ◌++◌, arith, length, length-append}
use streaming_tts_serving.Base.Text.{Text, strip}
use streaming_tts_serving.TextNorm.Words.{Engine}
use streaming_tts_serving.TextNorm.Split.{split_for_streaming}
use streaming_tts_serving.Incremental.{
  ClauseResult, Synthesizer, joined, all_but_last, emit, emit_all, push_parts, push, flush,
  stream_reply,
}
use streaming_tts_serving.Incremental.Cache.{IsValid, synth-Keeps}

module _ {L : Type 0} (engine : Engine) (latents_fn : ℕ → Text → L) where
  pub emit-IsValid :
      (s : Synthesizer L) (clause : Text)
      → IsValid engine latents_fn s
      → IsValid engine latents_fn (emit engine latents_fn s clause).0
        × ((emit engine latents_fn s clause).1.index ≡ s.emitted)
        × ((emit engine latents_fn s clause).0.emitted ≡ s.emitted + 1)
  unfolding emit
  emit-IsValid s clause w =
      let k = synth-Keeps engine latents_fn s clause w in
      (
        record {
          bounded = k.bounded;
          distinct = k.distinct;
          sound = k.sound;
          counted = omega (arith, k.counts, w.counted, k.same);
          indexed = omega (arith, k.same, w.indexed);
        },
        k.same.0,
        omega (arith, k.same),
      )

  -- the results carry the numbers from `n` on
  abbrev pub NumberedFrom : ℕ → List (ClauseResult L) → Type 0
  NumberedFrom n [] = Unit
  NumberedFrom n (r ∷ rs) = (r.index ≡ n) × NumberedFrom (n + 1) rs

  pub emit_all-IsValid :
      (s : Synthesizer L) (cs : List Text)
      → IsValid engine latents_fn s
      → IsValid engine latents_fn (emit_all engine latents_fn s cs).0
        × NumberedFrom s.emitted (emit_all engine latents_fn s cs).1
        × ((emit_all engine latents_fn s cs).0.emitted
            ≡ s.emitted + length (emit_all engine latents_fn s cs).1)
  unfolding emit_all
  emit_all-IsValid s [] w = (w, tt, omega arith)
  emit_all-IsValid s (c ∷ cs) w =
      let (w', i, n) = emit-IsValid s c w in
      let (w'', ns, m) = emit_all-IsValid (emit engine latents_fn s c).0 cs w' in
      (w'', (i, rw n at ns), omega (arith, n, m))

  pub rebuffered :
      (s : Synthesizer L) (b : Text)
      → IsValid engine latents_fn s
      → IsValid engine latents_fn (record s { buf = b })
  rebuffered s b w = record {
    bounded = w.bounded;
    distinct = w.distinct;
    sound = w.sound;
    counted = w.counted;
    indexed = w.indexed;
  }

  -- What a call of `push` or `flush` yields, and the state that it leaves.
  abbrev pub Emits : Synthesizer L → Synthesizer L × List (ClauseResult L) → Type 0
  Emits s out =
      IsValid engine latents_fn out.0
      × NumberedFrom s.emitted out.1
      × (out.0.emitted ≡ s.emitted + length out.1)

  pub push_parts-Emits :
      (s : Synthesizer L) (ps : List Text)
      → IsValid engine latents_fn s
      → Emits s (push_parts engine latents_fn s ps)
  unfolding push_parts
  push_parts-Emits s [] w = (w, tt, omega arith)
  push_parts-Emits s (p ∷ []) w = (w, tt, omega arith)
  push_parts-Emits s (p ∷ q ∷ ps) w =
      emit_all-IsValid (record s { buf = (all_but_last p (q ∷ ps)).1 }) (all_but_last p (q ∷ ps)).0
        (rebuffered s _ w)

  -- `push` keeps the invariant: the cache is within its size, no key stands twice in it, each entry
  -- was made for a clause of its normalized text, and hits and misses add up to the clauses. The
  -- results are numbered on from those before.
  pub push-Emits :
      (s : Synthesizer L) (fragment : Text)
      → IsValid engine latents_fn s
      → Emits s (push engine latents_fn s fragment)
  unfolding push
  push-Emits s fragment w =
      push_parts-Emits (record s { buf = joined s.buf fragment })
        (split_for_streaming s.min_chars (joined s.buf fragment)) (rebuffered s _ w)

  pub flush-Emits :
      (s : Synthesizer L) → IsValid engine latents_fn s → Emits s (flush engine latents_fn s)
  unfolding flush
  flush-Emits s w = go (strip s.buf)
    where
      go :
          (tail : Text)
          → Emits s (elim tail [
            | [] ↦ (record s { buf = [] }, [])
            | c ∷ t ↦
                let (u, r) = emit engine latents_fn (record s { buf = [] }) (c ∷ t) in (u, r ∷ [])
          ])
      go [] = (rebuffered s [] w, tt, omega arith)
      go (c ∷ t) =
          let (v, i, n) = emit-IsValid (record s { buf = [] }) (c ∷ t) (rebuffered s [] w) in
          (v, (i, tt), n)

  NumberedFrom-append :
      (n m : ℕ) (rs rs' : List (ClauseResult L))
      → NumberedFrom n rs
      → m ≡ n + length rs
      → NumberedFrom m rs'
      → NumberedFrom n (rs ++ rs')
  NumberedFrom-append n m [] rs' h e h' = let e' : m ≡ n = omega arith in rw e' at h'
  NumberedFrom-append n m (r ∷ rs) rs' h e h' =
      (h.0, NumberedFrom-append (n + 1) m rs rs' h.1 (omega arith) h')

  -- A whole reply, in any fragments, keeps the invariant, and its clauses are numbered without a
  -- gap from the clauses before it on.
  pub stream_reply-Emits :
      (s : Synthesizer L) (fs : List Text)
      → IsValid engine latents_fn s
      → Emits s (stream_reply engine latents_fn s fs)
  unfolding stream_reply
  stream_reply-Emits s [] w = flush-Emits s w
  stream_reply-Emits s (f ∷ fs) w =
      let t = (push engine latents_fn s f).0 in
      let rs = (push engine latents_fn s f).1 in
      let rs' = (stream_reply engine latents_fn t fs).1 in
      let (v, ns, n) = push-Emits s f w in
      let (v', ns', n') = stream_reply-Emits t fs v in
      (
        v',
        NumberedFrom-append s.emitted t.emitted rs rs' ns n ns',
        omega (arith, n, n', length-append rs rs'),
      )
