-- ===== src/TextNorm/Split.antt =====
-- `split_for_streaming` of streaming/text_norm.py.
pub mod Laws
use streaming_tts_serving.Base.{
  ℕ, suc, Bool, true, false, ◌&&◌, ◌||◌, Option, none, some, List, [], ◌∷◌, ◌++◌, ltb, ◌==◌,
  if◌then◌else◌, length,
}
use streaming_tts_serving.Base.Text.{Text, is_space, strip}
use streaming_tts_serving.TextNorm.Scan.{opt_is}
use streaming_tts_serving.TextNorm.Words.{◌␣◌}

-- `[.!?]` and `[;:]`
unfoldable pub ends_clause : ℕ → Bool
ends_clause c = c == b'.' || c == b'!' || c == b'?' || c == b';' || c == b':'

-- a separator begins, or goes on (`inside`), at the space `c` behind `prev`
unfoldable pub separates : Bool → Option ℕ → ℕ → Bool
separates inside prev c = is_space c && (inside || opt_is ends_clause prev)

-- `_SPLIT.split`: `cur` is the piece so far, `inside` says that the scan stands in a separator.
unfoldable pub pieces : Bool → Option ℕ → Text → Text → List Text
pieces inside prev cur [] = cur ∷ []
pieces inside prev cur (c ∷ s) = elim (separates inside prev c) [
  | true ↦ elim inside [
    | true ↦ pieces true (some c) cur s
    | false ↦ cur ∷ pieces true (some c) [] s
  ]
  | false ↦ pieces false (some c) (cur ++ c ∷ []) s
]

-- `[p.strip() for p in … if p and p.strip()]`
unfoldable pub stripped : List Text → List Text
stripped [] = []
stripped (p ∷ ps) = elim (strip p) [ [] ↦ stripped ps | c ∷ s ↦ (c ∷ s) ∷ stripped ps ]

-- The merging loop; `last` is `out[-1]`.
unfoldable pub merge : ℕ → Text → List Text → List Text
merge n last [] = last ∷ []
merge n last (p ∷ ps) = elim (ltb (length last) n) [
  | true ↦ merge n (last ␣ p) ps
  | false ↦ last ∷ merge n p ps
]

unfoldable pub merge_short : ℕ → List Text → List Text
merge_short n [] = []
merge_short n (p ∷ ps) = merge n p ps

unfoldable pub split_for_streaming : ℕ → Text → List Text
split_for_streaming min_chars text = merge_short min_chars (stripped (pieces false none [] text))
