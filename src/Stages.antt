-- ===== src/Stages.antt =====
-- `StageTimer` of export/profile_stages.py, and the report that `main` makes of it. A CUDA event is the
-- device time at which it is recorded, and a time is in whole ticks of it.
pub mod Laws
pub mod Traces
pub mod Seen
pub mod Totals
pub mod Report
use streaming_tts_serving.Base.{
  ℕ, zero, suc, ◌+◌, ◌-◌, ◌*◌, Bool, true, false, ◌||◌, ◌&&◌, Option, none, some, List, [], ◌∷◌,
  ◌++◌, map, ltb, leb, ◌==◌, if◌then◌else◌,
}
use streaming_tts_serving.Base.Text.{Text, codes, text_eq}

abbrev pub stages : List Text
stages =
    codes "text_encoder"
    ∷ codes "duration_predictor"
    ∷ codes "flow"
    ∷ codes "decoder"
    ∷ codes "posterior_encoder"
    ∷ []

-- `d[n] = v`
unfoldable pub update : {A : Type 0} → (Text → A) → Text → A → Text → A
update d n v m = if text_eq n m then v else d m

-- The hooks of a name are registered together. A missing key of a `defaultdict` has its default.
pub record StageTimer : Type 0 where
  pub pairs : Text → List (ℕ × ℕ)
  pub totals : Text → List ℕ
  pub calls : Text → ℕ
  pub opened : Text → Option ℕ
  pub handles : List Text

unfoldable pub with_module : (Text → Bool) → List Text → List Text
with_module has [] = []
with_module has (n ∷ ns) = let rest = with_module has ns in if has n then n ∷ rest else rest

-- `__init__`: a name that the model has no module for gets no hooks
unfoldable pub init : (Text → Bool) → List Text → StageTimer
init has names = record {
  pairs = λ n. [];
  totals = λ n. [];
  calls = λ n. 0;
  opened = λ n. none;
  handles = with_module has names;
}

unfoldable pub is_hooked : List Text → Text → Bool
is_hooked [] n = false
is_hooked (h ∷ hs) n = text_eq h n || is_hooked hs n

-- `_pre`
unfoldable pub pre : Text → ℕ → StageTimer → StageTimer
pre n t s = record s { opened = update s.opened n (some t) }

-- `_post`: a call that was not seen to begin is not counted
unfoldable pub post : Text → ℕ → StageTimer → StageTimer
post n t s = elim (s.opened n) [
  | none ↦ s
  | some start ↦ record s {
    opened = update s.opened n none;
    pairs = update s.pairs n (s.pairs n ++ (start, t) ∷ []);
    calls = update s.calls n (s.calls n + 1);
  }
]

-- `collect`, behind the synchronization: `elapsed_time` of each pair
unfoldable pub elapsed : ℕ × ℕ → ℕ
elapsed (start, end) = end - start

unfoldable pub collect : StageTimer → StageTimer
collect s = record s { totals = λ n. s.totals n ++ map elapsed (s.pairs n); pairs = λ n. [] }

unfoldable pub remove : StageTimer → StageTimer
remove s = record s { handles = [] }

-- What the timer goes through: a module's forward pass begins or ends, at a device time, or one of the
-- timer's methods is called. A pass that raises does not end.
pub data Event : Type 0 where
  enter : Text → ℕ → Event
  leave : Text → ℕ → Event
  collected : Event
  removed : Event

unfoldable pub step : StageTimer → Event → StageTimer
step s (enter n t) = if is_hooked s.handles n then pre n t s else s
step s (leave n t) = if is_hooked s.handles n then post n t s else s
step s collected = collect s
step s removed = remove s

unfoldable pub run : StageTimer → List Event → StageTimer
run s [] = s
run s (e ∷ es) = run (step s e) es

unfoldable pub sum : List ℕ → ℕ
sum [] = 0
sum (x ∷ xs) = x + sum xs

-- `rows`: the stages that ran, with their time and their calls over all the iterations
unfoldable pub rows : StageTimer → List Text → List (Text × ℕ × ℕ)
rows s [] = []
rows s (n ∷ ns) =
    let rest = rows s ns in
    elim (s.totals n) [ [] ↦ rest | v ∷ vs ↦ (n, sum (v ∷ vs), s.calls n) ∷ rest ]

unfoldable pub accounted : List (Text × ℕ × ℕ) → ℕ
accounted [] = 0
accounted ((n, ms, calls) ∷ rest) = ms + accounted rest

-- `sorted(rows, key=lambda r: -r[1])`: the longest first, and of equal ones the earlier
unfoldable pub insert : Text × ℕ × ℕ → List (Text × ℕ × ℕ) → List (Text × ℕ × ℕ)
insert r [] = r ∷ []
insert r (s ∷ rs) = let rest = insert r rs in if leb (s.1) (r.1) then r ∷ s ∷ rs else s ∷ rest

unfoldable pub by_time : List (Text × ℕ × ℕ) → List (Text × ℕ × ℕ)
by_time [] = []
by_time (r ∷ rs) = insert r (by_time rs)

-- the verdict on the times of the shortest and of the longest latents; a time of 0 raises
unfoldable pub launch_bound : ℕ → ℕ → Option Bool
launch_bound lo hi = if lo == 0 then none else some (ltb hi (8 * lo))
