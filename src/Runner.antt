-- ===== src/Runner.antt =====
-- `TRTRunner` of export/build_trt.py: an engine with one optimization profile, and its execution context,
-- which keeps the shape of an input from one call to the next.
pub mod Laws
use streaming_tts_serving.Base.{
  ℕ, Bool, true, false, ◌&&◌, Option, none, some, List, [], ◌∷◌, ◌++◌, leb, if◌then◌else◌,
}
use streaming_tts_serving.Base.Text.{Text, text_eq}
use streaming_tts_serving.Base.Result.{Result, ok, raise, ◌>>=◌}

abbrev pub Shape : Type 0
Shape = List ℕ

-- A tensor of the engine: an input with the smallest and the largest shape of its profile, or an output.
pub data Tensor : Type 0 where
  input : Text → Shape → Shape → Tensor
  output : Text → Tensor

pub record Runner : Type 0 where
  pub inputs : List Text
  pub outputs : List Text

-- `__init__`: the names of the inputs and of the outputs
unfoldable pub init : List Tensor → Runner
init [] = record { inputs = []; outputs = [] }
init (input n lo hi ∷ ts) = let r = init ts in record { inputs = n ∷ r.inputs; outputs = r.outputs }
init (output n ∷ ts) = let r = init ts in record { inputs = r.inputs; outputs = n ∷ r.outputs }

unfoldable pub within : Shape → Shape → Shape → Bool
within [] [] [] = true
within [] [] (h ∷ hi) = false
within [] (l ∷ lo) hi = false
within (d ∷ ds) [] hi = false
within (d ∷ ds) (l ∷ lo) [] = false
within (d ∷ ds) (l ∷ lo) (h ∷ hi) = (leb l d && leb d h) && within ds lo hi

-- whether the engine takes a shape for an input
unfoldable pub is_in_profile : List Tensor → Text → Shape → Bool
is_in_profile [] n shape = false
is_in_profile (output m ∷ ts) n shape = is_in_profile ts n shape
is_in_profile (input m lo hi ∷ ts) n shape =
    let rest = is_in_profile ts n shape in if text_eq m n then within shape lo hi else rest

-- The context: the shape that each input was given last.
abbrev pub Context : Type 0
Context = List (Text × Shape)

unfoldable pub shape_of : Context → Text → Option Shape
shape_of [] n = none
shape_of ((m, s) ∷ c) n = let rest = shape_of c n in if text_eq m n then some s else rest

-- `ctx.set_input_shape`: a shape outside the profile is refused, and the old one is kept
unfoldable pub set_input_shape : List Tensor → Context → Text → Shape → Context × Bool
set_input_shape ts c n shape =
    if is_in_profile ts n shape then ((n, shape) ∷ c, true) else (c, false)

pub data RunnerError : Type 0 where
  outside_profile : Text → Shape → RunnerError

-- the loop of `__call__` over the feeds, of which the shapes are modelled
unfoldable pub feed :
    List Tensor → Context → List (Text × Shape) → Context × Result RunnerError (Unit {0})
feed ts c [] = (c, ok tt)
feed ts c ((n, shape) ∷ feeds) =
    let (c', taken) = set_input_shape ts c n shape in
    let rest = feed ts c' feeds in if taken then rest else (c', raise (outside_profile n shape))

-- `__call__`: the context behind it, and what the engine is run on
unfoldable pub call :
    List Tensor → Context → List (Text × Shape) → Context × Result RunnerError Context
call ts c feeds = let (c', r) = feed ts c feeds in (c', (do done ← r; ok c'))
