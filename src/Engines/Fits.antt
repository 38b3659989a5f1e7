-- ===== src/Engines/Fits.antt =====
-- What the served code gives to the engines fits their profiles.
use streaming_tts_serving.Base.{
  ℕ, ◌+◌, ◌-◌, ◌*◌, ◌≤◌, ◌<◌, ◌≡◌, ◌∙◌, inl, inr, refl, min, Bool-cases, if◌then◌else◌, List, [],
  ◌∷◌, All, arith, leb,
}
use streaming_tts_serving.Base.Text.{codes, text_eq}
use streaming_tts_serving.Base.Result.{Result, ok, raise}
use streaming_tts_serving.Chunked.{Geometry, chunk_bounds, window}
use streaming_tts_serving.Chunked.Bounds.{
  IsValid, Tiles, Grows, chunk_bounds-Tiles, chunk_bounds-Grows,
}
use streaming_tts_serving.Runner.{
  Shape, Context, RunnerError, outside_profile, feed, set_input_shape, within, is_in_profile, call,
}
use streaming_tts_serving.Engines.{dec_profile, engine_inputs}

abbrev pub frames : ℕ × ℕ × ℕ → ℕ
frames (lo, hi, left) = hi - lo

window-frames :
    (g : Geometry) (total a b most : ℕ)
    → a < b
    → b ≤ total
    → b - a ≤ most
    → (min total (g.overlap_frames + 1) ≤ frames (window g total (a, b)))
      × (frames (window g total (a, b)) ≤ most + 2 * g.overlap_frames)
unfolding window
window-frames g total a b most h h' m = (omega arith, omega arith)

window_le : (g : Geometry) (total a b : ℕ) → b ≤ total → frames (window g total (a, b)) ≤ total
unfolding window
window_le g total a b h = omega arith

-- the shape that the decoder gets for a chunk
abbrev pub decoder_shape : ℕ → ℕ → Geometry → ℕ → ℕ × ℕ → Shape
decoder_shape batch ch g total ab = batch ∷ ch ∷ frames (window g total ab) ∷ []

pub decoder-within :
    (batch ch n total : ℕ)
    → 1 ≤ batch
    → batch ≤ 32
    → min total 14 ≤ n
    → n ≤ min total 76
    → is_in_profile (engine_inputs (dec_profile ch)) (codes "latents") (batch ∷ ch ∷ n ∷ [])
      ≡ leb 14 total
unfolding engine_inputs dec_profile is_in_profile within text_eq
decoder-within batch ch n total l h l' h' = ground arith

-- the call of the decoder's engine for a chunk
abbrev pub decode_call : ℕ → ℕ → Context → Geometry → ℕ → ℕ × ℕ → Result RunnerError Context
decode_call batch ch c g total ab =
    (call (engine_inputs (dec_profile ch)) c
      ((codes "latents", decoder_shape batch ch g total ab) ∷ [])).1

-- How the call ends: it runs on the shape of the chunk, or refuses it.
abbrev pub expected : Context → Shape → ℕ → Result RunnerError Context
expected c shape total =
    if leb 14 total
    then ok ((codes "latents", shape) ∷ c)
    else raise (outside_profile (codes "latents") shape)

call-expected :
    (batch ch n total : ℕ) (c : Context)
    → 1 ≤ batch
    → batch ≤ 32
    → min total 14 ≤ n
    → n ≤ min total 76
    → (call (engine_inputs (dec_profile ch)) c ((codes "latents", batch ∷ ch ∷ n ∷ []) ∷ [])).1
      ≡ expected c (batch ∷ ch ∷ n ∷ []) total
unfolding call feed set_input_shape
call-expected batch ch n total c l h l' h' =
    let fits = decoder-within batch ch n total l h l' h' in
    elim (Bool-cases (leb 14 total)) [
      | inl e ↦ rw (fits ∙ e, e) refl
      | inr e ↦ rw (fits ∙ e, e) refl
    ]

chunks-expected :
    (g : Geometry) (batch ch total a least : ℕ) (c : Context) (chunks : List (ℕ × ℕ))
    → 13 ≤ g.overlap_frames
    → g.max_frames + 2 * g.overlap_frames ≤ 76
    → 1 ≤ batch
    → batch ≤ 32
    → Tiles a total chunks
    → Grows g.max_frames total least chunks
    → All
        (λ ab.
          decode_call batch ch c g total ab ≡ expected c (decoder_shape batch ch g total ab) total)
        chunks
chunks-expected g batch ch total a least c [] o m l h t w = tt
chunks-expected g batch ch total a least c ((x, y) ∷ chunks) o m l h (e, lt, le, t)
      (short, long, w) =
    let (lo, hi) = window-frames g total x y g.max_frames (omega arith) le short in
    (
      call-expected batch ch (frames (window g total (x, y))) total c l h (omega arith)
          (omega (arith, window_le g total x y le)),
      chunks-expected g batch ch total y (y - x) c chunks o m l h t w,
    )

-- With the geometry of the served configuration, a context of 13 frames or more and chunks whose
-- windows have at most 76, the decoder's engine takes every window of an utterance of 14 frames or
-- more, for each batch up to 32; it takes none of a shorter utterance.
pub chunk_bounds-profile :
    (g : Geometry) (batch ch total : ℕ) (c : Context)
    → IsValid g
    → 13 ≤ g.overlap_frames
    → g.max_frames + 2 * g.overlap_frames ≤ 76
    → 1 ≤ batch
    → batch ≤ 32
    → 0 < total
    → All
        (λ ab.
          decode_call batch ch c g total ab ≡ expected c (decoder_shape batch ch g total ab) total)
        (chunk_bounds g total)
chunk_bounds-profile g batch ch total c v o m l h some_frame =
    chunks-expected g batch ch total 0 g.first_frames c (chunk_bounds g total) o m l h
      (chunk_bounds-Tiles g total v) (chunk_bounds-Grows g total v some_frame).0
