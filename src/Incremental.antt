-- ===== src/Incremental.antt =====
-- `IncrementalSynthesizer` of streaming/incremental.py. A generator is run to its end. `latents_fn`
-- may answer otherwise at each call, so it takes the number of the call.
pub mod Content
pub mod Cache
pub mod Emits
pub mod Order
pub mod Recent
use streaming_tts_serving.Base.{
  ℕ, suc, ◌+◌, Bool, true, false, not, ◌&&◌, Option, none, some, List, [], ◌∷◌, ◌++◌, ltb, ◌==◌,
  if◌then◌else◌, length, drop,
}
use streaming_tts_serving.Base.Text.{Text, text_eq, is_space, strip}
use streaming_tts_serving.TextNorm.{normalize}
use streaming_tts_serving.TextNorm.Scan.{head_is}
use streaming_tts_serving.TextNorm.Words.{Engine}
use streaming_tts_serving.TextNorm.Split.{split_for_streaming}

pub record CacheStats : Type 0 where
  pub hits : ℕ
  pub misses : ℕ
  pub clauses_emitted : ℕ

-- the two terms of the rate, which is 0 where nothing was asked for
unfoldable hit_rate : CacheStats → ℕ × ℕ
hit_rate c = if c.hits + c.misses == 0 then (0, 1) else (c.hits, c.hits + c.misses)

pub record ClauseResult (L : Type 0) : Type 0 where
  pub text : Text
  pub latents : L
  pub from_cache : Bool
  pub index : ℕ

-- The `OrderedDict` is a list of its entries, the first inserted or least recently moved first.
pub record Synthesizer (L : Type 0) : Type 0 where
  pub min_chars : ℕ
  pub buf : Text
  pub emitted : ℕ
  pub stats : CacheStats
  pub cache : List (Text × L)
  pub cache_size : ℕ

unfoldable pub last_is_space : Text → Bool
last_is_space [] = false
last_is_space (c ∷ []) = is_space c
last_is_space (c ∷ d ∷ s) = last_is_space (d ∷ s)

unfoldable pub is_empty : Text → Bool
is_empty [] = true
is_empty (c ∷ s) = false

-- `push` up to the split: a space goes between two fragments where neither side has one
unfoldable pub joined : Text → Text → Text
joined buf fragment =
    if not (is_empty buf)
      && not (is_empty fragment)
      && (not (last_is_space buf) && not (head_is is_space fragment))
    then buf ++ (b' ' ∷ fragment)
    else buf ++ fragment

-- `parts[:-1], parts[-1]`, of `p ∷ ps`
unfoldable pub all_but_last : Text → List Text → List Text × Text
all_but_last p [] = ([], p)
all_but_last p (q ∷ ps) = let (complete, last) = all_but_last q ps in (p ∷ complete, last)

module _ {L : Type 0} where
  unfoldable pub lookup : Text → List (Text × L) → Option L
  lookup k [] = none
  lookup k ((j, v) ∷ m) = if text_eq j k then some v else lookup k m

  unfoldable pub remove : Text → List (Text × L) → List (Text × L)
  remove k [] = []
  remove k ((j, v) ∷ m) = if text_eq j k then m else (j, v) ∷ remove k m

  -- `__init__`
  unfoldable pub init : ℕ → ℕ → Synthesizer L
  init cache_size min_chars = record {
    min_chars = min_chars;
    buf = [];
    emitted = 0;
    stats = record { hits = 0; misses = 0; clauses_emitted = 0 };
    cache = [];
    cache_size = cache_size;
  }

  -- `popitem(last=False)` where the cache has grown past its size
  unfoldable pub evict : ℕ → List (Text × L) → List (Text × L)
  evict size m = if ltb size (length m) then drop 1 m else m

module _ {L : Type 0} (engine : Engine) (latents_fn : ℕ → Text → L) where
  unfoldable pub hit : Synthesizer L → Text → L → Synthesizer L
  hit s key v = record s {
    cache = remove key s.cache ++ (key, v) ∷ [];
    stats = record (s.stats) { hits = s.stats.hits + 1 };
  }

  unfoldable pub miss : Synthesizer L → Text → L → Synthesizer L
  miss s key v = record s {
    cache = evict s.cache_size (s.cache ++ (key, v) ∷ []);
    stats = record (s.stats) { misses = s.stats.misses + 1 };
  }

  -- `_synth`
  unfoldable pub synth : Synthesizer L → Text → Synthesizer L × L × Bool
  synth s clause =
      let key = normalize engine clause in
      elim (lookup key s.cache) [
        | some v ↦ (hit s key v, v, true)
        | none ↦ let v = latents_fn s.stats.misses clause in (miss s key v, v, false)
      ]

  -- One round of the loop of `push`, and the end of `flush`.
  unfoldable pub emit : Synthesizer L → Text → Synthesizer L × ClauseResult L
  emit s clause =
      let (t, v, cached) = synth s clause in
      (
        record t {
          stats = record (t.stats) { clauses_emitted = t.stats.clauses_emitted + 1 };
          emitted = t.emitted + 1;
        },
        record { text = clause; latents = v; from_cache = cached; index = t.emitted },
      )

  unfoldable pub emit_all : Synthesizer L → List Text → Synthesizer L × List (ClauseResult L)
  emit_all s [] = (s, [])
  emit_all s (clause ∷ rest) =
      let (t, r) = emit s clause in let (u, rs) = emit_all t rest in (u, r ∷ rs)

  -- `push` behind the split: with one part or none the buffer stays as it was joined
  unfoldable pub push_parts : Synthesizer L → List Text → Synthesizer L × List (ClauseResult L)
  push_parts s [] = (s, [])
  push_parts s (p ∷ []) = (s, [])
  push_parts s (p ∷ q ∷ ps) =
      let (complete, last) = all_but_last p (q ∷ ps) in emit_all (record s { buf = last }) complete

  unfoldable pub push : Synthesizer L → Text → Synthesizer L × List (ClauseResult L)
  push s fragment =
      let buf = joined s.buf fragment in
      push_parts (record s { buf = buf }) (split_for_streaming s.min_chars buf)

  unfoldable pub flush : Synthesizer L → Synthesizer L × List (ClauseResult L)
  flush s = elim (strip s.buf) [
    | [] ↦ (record s { buf = [] }, [])
    | c ∷ t ↦ let (u, r) = emit (record s { buf = [] }) (c ∷ t) in (u, r ∷ [])
  ]

  -- a whole reply: its fragments pushed in turn, and the end of the stream
  unfoldable pub stream_reply : Synthesizer L → List Text → Synthesizer L × List (ClauseResult L)
  stream_reply s [] = flush s
  stream_reply s (f ∷ fs) =
      let (t, rs) = push s f in let (u, rs') = stream_reply t fs in (u, rs ++ rs')
