-- ===== src/Examples/Profiling.antt =====
-- The stage timer at concrete inputs.
use streaming_tts_serving.Base.{
  ◌-◌, ◌≤◌, ◌≡◌, refl, true, Bool, List, [], ◌∷◌, ◌++◌, map, length, arith,
}
use streaming_tts_serving.Base.Text.{Text, codes, text_eq}
use streaming_tts_serving.Stages.{
  stages, with_module, init, is_hooked, elapsed, Event, enter, leave, collected, removed, run, rows,
  accounted, by_time,
}
use streaming_tts_serving.Stages.Traces.{Call, Trace, done, call, times}
use streaming_tts_serving.Stages.Totals.{run-totals}
use streaming_tts_serving.Stages.Report.{Distinct, accounted-run}

abbrev all : Text → Bool
all n = true

-- a flow and a decoder one behind the other, and a forward pass that holds both
abbrev parts : List Event
parts =
    enter (codes "flow") 1
    ∷ leave (codes "flow") 4
    ∷ enter (codes "decoder") 5
    ∷ leave (codes "decoder") 9
    ∷ []

abbrev part_calls : List Call
part_calls = (codes "flow", 1, 4) ∷ (codes "decoder", 5, 9) ∷ []

parts-Trace : Trace parts part_calls
parts-Trace = call (codes "flow") 1 4 done tt (call (codes "decoder") 5 9 done tt done)

abbrev forward : List Event
forward = enter (codes "model") 0 ∷ parts ++ leave (codes "model") 11 ∷ []

abbrev forward_calls : List Call
forward_calls = part_calls ++ (codes "model", 0, 11) ∷ []

forward-Trace : Trace forward forward_calls
unfolding text_eq
forward-Trace = call (codes "model") 0 11 parts-Trace (refl, (refl, tt)) done

decoder_hooked : is_hooked (with_module all stages) (codes "decoder") ≡ true
unfolding is_hooked with_module text_eq
decoder_hooked = refl

run-totals_example :
    let s = run (init all stages) (forward ++ collected ∷ removed ∷ parts) in
    (s.totals (codes "decoder") ≡ map elapsed (times (codes "decoder") forward_calls))
    × (s.calls (codes "decoder") ≡ length (times (codes "decoder") forward_calls))
run-totals_example =
    run-totals all stages forward parts forward_calls (codes "decoder") forward-Trace decoder_hooked

-- a pass that raises, one that begins before the hooks are there, and one that is counted
abbrev broken : List Event
broken =
    leave (codes "flow") 1
    ∷ enter (codes "flow") 2
    ∷ enter (codes "flow") 3
    ∷ leave (codes "flow") 5
    ∷ []

stages-Distinct : Distinct stages
unfolding text_eq
stages-Distinct = (
  (refl, (refl, (refl, (refl, tt)))),
  ((refl, (refl, (refl, tt))), ((refl, (refl, tt)), ((refl, tt), (tt, tt)))),
)

accounted-run_example :
    accounted (by_time (rows (run (init all stages) (parts ++ collected ∷ [])) stages)) ≤ 11 - 0
accounted-run_example =
    accounted-run all stages parts part_calls 0 11 parts-Trace
      (omega arith, omega arith, (omega arith, omega arith, omega arith)) stages-Distinct
