-- ===== src/Stages/Totals.antt =====
-- What the timer reports of forward passes.
use mathlib.Core.Path.{subst}
use streaming_tts_serving.Base.{
  ◌+◌, ◌≡◌, ◌∙◌, refl, sym, ap, ap₂, Bool, true, List, [], ◌∷◌, ◌++◌, map, length, append-nil,
  arith,
}
use streaming_tts_serving.Base.Text.{Text}
use streaming_tts_serving.Stages.{
  StageTimer, with_module, init, is_hooked, elapsed, collect, remove, Event, enter, leave,
  collected, removed, step, run,
}
use streaming_tts_serving.Stages.Laws.{run-Counted, run-append}
use streaming_tts_serving.Stages.Traces.{Call, Trace, times}
use streaming_tts_serving.Stages.Seen.{Seen, run-Seen, off}

-- A timer without hooks or open pairs only repeats what it has.
record Idle (s s' : StageTimer) : Type 0 where
  no_handles : s'.handles ≡ []
  no_pairs : (m : Text) → s'.pairs m ≡ []
  kept_totals : (m : Text) → s'.totals m ≡ s.totals m
  kept_calls : (m : Text) → s'.calls m ≡ s.calls m

step-Idle : (s s' : StageTimer) (e : Event) → Idle s s' → Idle s (step s' e)
unfolding step collect remove is_hooked
step-Idle s s' (enter n t) i =
    subst (Idle s) (sym (off s' n t (ap (λ hs. is_hooked hs n) i.no_handles)).0) i
step-Idle s s' (leave n t) i =
    subst (Idle s) (sym (off s' n t (ap (λ hs. is_hooked hs n) i.no_handles)).1) i
step-Idle s s' collected i = record {
  no_handles = i.no_handles;
  no_pairs = λ m. refl;
  kept_totals = λ m.
      ap (λ ps. s'.totals m ++ map elapsed ps) (i.no_pairs m)
      ∙ append-nil (s'.totals m)
      ∙ i.kept_totals m;
  kept_calls = i.kept_calls;
}
step-Idle s s' removed i = record {
  no_handles = refl;
  no_pairs = i.no_pairs;
  kept_totals = i.kept_totals;
  kept_calls = i.kept_calls;
}

run-Idle : (s s' : StageTimer) (es : List Event) → Idle s s' → Idle s (run s' es)
unfolding run
run-Idle s s' [] i = i
run-Idle s s' (e ∷ es) i = run-Idle s (step s' e) es (step-Idle s s' e i)

-- For forward passes whose calls are nested, none in one of its own module, the timer's totals of a hooked stage
-- are the lengths of the stage's calls, each once and in the order of their ends, and `calls` is
-- their number; once the hooks are removed, nothing that follows changes either.
pub run-totals :
    (has : Text → Bool) (names : List Text) (es later : List Event) (cs : List Call) (m : Text)
    → Trace es cs
    → is_hooked (with_module has names) m ≡ true
    → let s = run (init has names) (es ++ collected ∷ removed ∷ later) in
      (s.totals m ≡ map elapsed (times m cs)) × (s.calls m ≡ length (times m cs))
unfolding init run step collect remove
run-totals has names es later cs m trace h =
    subst (λ r. (r.totals m ≡ map elapsed (times m cs)) × (r.calls m ≡ length (times m cs)))
      (sym (run-append (init has names) es (collected ∷ removed ∷ later)))
      (i.kept_totals m ∙ totals, i.kept_calls m ∙ calls)
  where
    s : StageTimer
    s = run (init has names) es

    seen : Seen (init has names) s cs
    seen = run-Seen (init has names) trace

    i : Idle (remove (collect s)) (run (remove (collect s)) later)
    i = run-Idle (remove (collect s)) (remove (collect s)) later (record {
      no_handles = refl;
      no_pairs = λ k. refl;
      kept_totals = λ k. refl;
      kept_calls = λ k. refl;
    })

    totals : s.totals m ++ map elapsed (s.pairs m) ≡ map elapsed (times m cs)
    totals = ap₂ (λ ts ps. ts ++ map elapsed ps) (seen.same_totals m) (seen.seen_pairs m h)

    calls : s.calls m ≡ length (times m cs)
    calls =
        run-Counted (init has names) es (λ k. refl) m
        ∙ ap₂ (λ ts ps. length ts + length ps) (seen.same_totals m) (seen.seen_pairs m h)
        ∙ omega arith
