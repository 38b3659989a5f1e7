-- ===== src/Server/Race.antt =====
-- Requests that share the model's speaking rate, one after the other and in turns.
use mathlib.Core.Option.{none-ne-some, some-injective}
use mathlib.Core.Bool.{true≢false}
use streaming_tts_serving.Base.{
  ℕ, zero, suc, ◌≡◌, ◌∙◌, refl, sym, ap, some, List, [], ◌∷◌, get_elem?, set, ◌⊎◌, inl, inr,
  Option-cases, Bool-cases, true, false, ◌≢◌, ◌==◌, ==_iff, get_elem?-set_ne,
}
use streaming_tts_serving.Base.Int.{ℤ}
use streaming_tts_serving.Base.Text.{Text}
use streaming_tts_serving.Base.Result.{Result, ok}
use streaming_tts_serving.Server.{
  SynthRequest, Response, Thread, arrived, tokenized, rated, replied, Shared, forward, advance, run,
  synthesize,
}

module _ {E Ids G : Type 0} (unit sr : ℕ) (tok : Text → Result E Ids)
    (model : ℕ → Ids → G → Result E (List ℤ) × G) where
  -- the response that a request has by itself, at its own rate, where the generator is in a state
  abbrev pub own_response : SynthRequest → G → Response E
  own_response q g = (synthesize unit sr tok model q (record { rate = 0; generator = g })).0

  -- Where a thread can be on the way to its own response, when all requests ask for `rate`.
  data On (rate : ℕ) (q : SynthRequest) (shared : Shared G) : Thread E Ids → Type 0 where
    begun : On rate q shared (arrived q)
    has_ids : (ids : Ids) → tok q.text ≡ ok ids → On rate q shared (tokenized ids rate)
    has_rate : (ids : Ids) → tok q.text ≡ ok ids → shared.rate ≡ rate → On rate q shared (rated ids)
    done : (g : G) → On rate q shared (replied (own_response q g))

  abbrev AllOn : ℕ → Shared G → List SynthRequest → List (Thread E Ids) → Type 0
  AllOn rate shared [] [] = Unit
  AllOn rate shared (q ∷ qs) [] = ⊥
  AllOn rate shared [] (t ∷ ts) = ⊥
  AllOn rate shared (q ∷ qs) (t ∷ ts) = On rate q shared t × AllOn rate shared qs ts

  abbrev Settled : SynthRequest → Thread E Ids → Type 0
  Settled q (arrived p) = Unit
  Settled q (tokenized ids n) = Unit
  Settled q (rated ids) = Unit
  Settled q (replied r) = (g : G) × (r ≡ own_response q g)

  set_there :
      (ts : List (Thread E Ids)) (i : ℕ) (t u : Thread E Ids)
      → get_elem? ts i ≡ some t
      → get_elem? (set ts i u) i ≡ some u
  set_there [] i t u e = absurd (none-ne-some t e)
  set_there (x ∷ ts) zero t u e = refl
  set_there (x ∷ ts) (suc i) t u e = set_there ts i t u e

  run_turn :
      (i : ℕ) (is : List ℕ) (ts : List (Thread E Ids)) (t : Thread E Ids) (shared : Shared G)
      → get_elem? ts i ≡ some t
      → run unit sr tok model (i ∷ is) ts shared
        ≡ run unit sr tok model is
            (set ts i ((advance unit sr tok model t shared).0))
            ((advance unit sr tok model t shared).1)
  unfolding run
  run_turn i is ts t shared e = rw (e, run) refl

  run-replied :
      (is : List ℕ) (ts : List (Thread E Ids)) (shared : Shared G) (i : ℕ) (r : Response E)
      → get_elem? ts i ≡ some (replied r)
      → get_elem? ((run unit sr tok model is ts shared).0) i ≡ some (replied r)
  unfolding run advance
  run-replied [] ts shared i r e = e
  run-replied (k ∷ is) ts shared i r e = elim (Option-cases (get_elem? ts k)) [
    | inl n ↦ rw (n, run) (run-replied is ts shared i r e)
    | inr (t, n) ↦
        rw (n, run)
          (run-replied is (set ts k ((advance unit sr tok model t shared).0))
            ((advance unit sr tok model t shared).1) i r (kept t n (Bool-cases (k == i))))
  ]
    where
      kept :
          (t : Thread E Ids)
          → get_elem? ts k ≡ some t
          → ((k == i) ≡ true) ⊎ ((k == i) ≡ false)
          → get_elem? (set ts k ((advance unit sr tok model t shared).0)) i ≡ some (replied r)
      kept t n (inr d) =
          get_elem?-set_ne ts ((advance unit sr tok model t shared).0)
            (λ same. true≢false (sym ((==_iff k i).1 same) ∙ d))
          ∙ e
      kept t n (inl d) =
          let same : k ≡ i = (==_iff k i).0 d in
          let it : t ≡ replied r =
            some-injective t (replied r) (sym n ∙ ap (get_elem? ts) same ∙ e) in
          rw (same, it) (set_there ts i (replied r) (replied r) e)

  -- In the mode `threadpool`, where a request is about to make its forward pass and another one writes its
  -- rate just before, the response is made at the other's rate, and stays so whatever turns follow: among
  -- any threads in any state.
  pub run-race :
      (ts : List (Thread E Ids)) (i j other : ℕ) (ids ids' : Ids) (rest : List ℕ)
      (shared : Shared G)
      → j ≢ i
      → get_elem? ts i ≡ some (rated ids)
      → get_elem? ts j ≡ some (tokenized ids' other)
      → get_elem? ((run unit sr tok model (j ∷ i ∷ rest) ts shared).0) i
        ≡ some (replied ((forward unit sr tok model other ids shared.generator).0))
  unfolding advance
  run-race ts i j other ids ids' rest shared d e f =
      let ts' = set ts j (rated ids') in
      let written = record shared { rate = other } in
      let reply = forward unit sr tok model other ids shared.generator in
      let there : get_elem? ts' i ≡ some (rated ids) = get_elem?-set_ne ts (rated ids') d ∙ e in
      ap (λ o. get_elem? (o.0) i)
        (run_turn j (i ∷ rest) ts (tokenized ids' other) shared f
          ∙ run_turn i rest ts' (rated ids) written there)
      ∙ run-replied rest (set ts' i (replied (reply.0))) (record written { generator = reply.1 }) i
          (reply.0) (set_there ts' i (rated ids) (replied (reply.0)) there)
