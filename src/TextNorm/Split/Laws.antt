-- ===== src/TextNorm/Split/Laws.antt =====
-- The units of `split_for_streaming`.
use streaming_tts_serving.Base.{
  ℕ, ◌≤◌, ◌≡◌, ◌∙◌, refl, sym, ap, Bool, true, false, Option, none, some, List, [], ◌∷◌, ◌++◌, ltb,
  append_assoc, length, arith,
}
use streaming_tts_serving.Base.Text.{Text, is_space, strip, solid, keep}
use streaming_tts_serving.Base.TextLaws.{solid-append, solid-strip}
use streaming_tts_serving.TextNorm.Words.{◌␣◌}
use streaming_tts_serving.TextNorm.Split.{
  separates, pieces, stripped, merge, merge_short, split_for_streaming,
}

-- what is heard of some units
unfoldable pub solids : List Text → Text
solids [] = []
solids (p ∷ ps) = solid p ++ solids ps

pub solids-append : (ps qs : List Text) → solids (ps ++ qs) ≡ solids ps ++ solids qs
unfolding solids
solids-append [] qs = refl
solids-append (p ∷ ps) qs = simp (solids-append ps qs, append_assoc)

pub solid-space : (a b : Text) → solid (a ␣ b) ≡ solid a ++ solid b
solid-space a b = solid-append a (b' ' ∷ b) ∙ ap (λ t. solid a ++ t) blank
  where
    blank : solid (b' ' ∷ b) ≡ solid b
    blank = unfold solid keep is_space in refl

solid_cons_space : (c : ℕ) (s : Text) → is_space c ≡ true → solid (c ∷ s) ≡ solid s
unfolding solid keep
solid_cons_space c s h = rw h

separates-space :
    (inside : Bool) (prev : Option ℕ) (c : ℕ) → separates inside prev c ≡ true → is_space c ≡ true
unfolding separates
separates-space inside prev c h = ground arith

solid-snoc :
    (cur : Text) (c : ℕ) (s : Text) → solid (cur ++ c ∷ []) ++ solid s ≡ solid cur ++ solid (c ∷ s)
solid-snoc cur c s =
    ap (λ t. t ++ solid s) (solid-append cur (c ∷ []))
    ∙ append_assoc (solid cur) (solid (c ∷ [])) (solid s)
    ∙ ap (λ t. solid cur ++ t) (sym (solid-append (c ∷ []) s))

solids-pieces :
    (inside : Bool) (prev : Option ℕ) (cur s : Text)
    → solids (pieces inside prev cur s) ≡ solid cur ++ solid s
unfolding pieces solids
solids-pieces inside prev cur [] = unfold solid keep in refl
solids-pieces true prev cur (c ∷ s) = ground (
  arith,
  solids-pieces true (some c) cur s,
  solids-pieces false (some c) (cur ++ c ∷ []) s,
  solid-snoc cur c s,
  solid_cons_space c s,
  separates-space true prev c,
)
solids-pieces false prev cur (c ∷ s) = ground (
  arith,
  solids-pieces true (some c) [] s,
  solids-pieces false (some c) (cur ++ c ∷ []) s,
  solid-snoc cur c s,
  solid_cons_space c s,
  separates-space false prev c,
  solid_nil,
)
  where
    solid_nil : solid [] ≡ []
    solid_nil = unfold solid keep in refl

solids-stripped : (ps : List Text) → solids (stripped ps) ≡ solids ps
unfolding solids stripped
solids-stripped [] = refl
solids-stripped (p ∷ ps) = go (strip p) refl (solids-stripped ps)
  where
    go :
        (q : Text)
        → strip p ≡ q
        → solids (stripped ps) ≡ solids ps
        → solids (elim q [ [] ↦ stripped ps | c ∷ s ↦ (c ∷ s) ∷ stripped ps ])
          ≡ solid p ++ solids ps
    go [] e ih = cc (solid-strip p, solid_nil)
      where
        solid_nil : solid [] ≡ []
        solid_nil = unfold solid keep in refl
    go (c ∷ s) e ih = rw (ih, ← solid-strip p, e) refl

solids-merge :
    (n : ℕ) (last : Text) (ps : List Text) → solids (merge n last ps) ≡ solid last ++ solids ps
unfolding solids merge
solids-merge n last [] = refl
solids-merge n last (p ∷ ps) = ground (
  arith,
  solids-merge n (last ␣ p) ps,
  solids-merge n p ps,
  solid-space last p,
  append_assoc (solid last) (solid p) (solids ps),
)

-- The units of a text say all that the text says, in order: splitting and merging move white
-- space only.
pub solids-split_for_streaming : (n : ℕ) (s : Text) → solids (split_for_streaming n s) ≡ solid s
unfolding split_for_streaming
solids-split_for_streaming n s =
    go (stripped (pieces false none [] s))
    ∙ solids-stripped (pieces false none [] s)
    ∙ solids-pieces false none [] s
    ∙ unfold solid keep in refl
  where
    go : (ps : List Text) → solids (merge_short n ps) ≡ solids ps
    go [] = unfold merge_short in refl
    go (p ∷ ps) = unfold merge_short solids in solids-merge n p ps

-- Each unit but the last has at least `n` characters.
abbrev pub LongButLast : ℕ → List Text → Type 0
LongButLast n [] = Unit
LongButLast n (p ∷ []) = Unit
LongButLast n (p ∷ q ∷ ps) = (n ≤ length p) × LongButLast n (q ∷ ps)

LongButLast-cons :
    (n : ℕ) (p : Text) (ps : List Text) → n ≤ length p → LongButLast n ps → LongButLast n (p ∷ ps)
LongButLast-cons n p [] h hs = tt
LongButLast-cons n p (q ∷ ps) h hs = (h, hs)

merge-LongButLast : (n : ℕ) (last : Text) (ps : List Text) → LongButLast n (merge n last ps)
unfolding merge
merge-LongButLast n last [] = tt
merge-LongButLast n last (p ∷ ps) =
    go (ltb (length last) n) refl (merge-LongButLast n (last ␣ p) ps) (merge-LongButLast n p ps)
  where
    go :
        (b : Bool)
        → ltb (length last) n ≡ b
        → LongButLast n (merge n (last ␣ p) ps)
        → LongButLast n (merge n p ps)
        → LongButLast n (elim b [ true ↦ merge n (last ␣ p) ps | false ↦ last ∷ merge n p ps ])
    go true e h h' = h
    go false e h h' = LongButLast-cons n last (merge n p ps) (ground arith) h'

-- No unit but the last is shorter than the least length asked for.
pub split_for_streaming-LongButLast : (n : ℕ) (s : Text) → LongButLast n (split_for_streaming n s)
unfolding split_for_streaming
split_for_streaming-LongButLast n s = go (stripped (pieces false none [] s))
  where
    go : (ps : List Text) → LongButLast n (merge_short n ps)
    go [] = unfold merge_short in tt
    go (p ∷ ps) = unfold merge_short in merge-LongButLast n p ps
