-- ===== src/Batching.antt =====
-- export/probe_batching.py: the cost of a decoder call by its batch size, up to the first that does not fit into
-- memory, and the streams that one GPU could sustain. Times are whole microseconds.
pub mod Laws
use streaming_tts_serving.Base.{
  ℕ, ◌+◌, ◌*◌, Option, none, some, List, [], ◌∷◌, map, ◌==◌, if◌then◌else◌,
}
use streaming_tts_serving.Base.Text.{Text, codes}
use streaming_tts_serving.Chunked.{round}

-- `round(seconds * sr / hop)`
unfoldable pub chunk_frames : ℕ → ℕ → ℕ → ℕ
chunk_frames sr hop us = round (us * sr) (1000000 * hop)

unfoldable pub chunk_specs : ℕ → ℕ → List (Text × ℕ)
chunk_specs sr hop =
    (codes "100ms", chunk_frames sr hop 100000)
    ∷ (codes "200ms", chunk_frames sr hop 200000)
    ∷ (codes "400ms", chunk_frames sr hop 400000)
    ∷ (codes "200ms+ovl16", chunk_frames sr hop 200000 + 32)
    ∷ []

abbrev pub batches : List ℕ
batches = 1 ∷ 2 ∷ 4 ∷ 8 ∷ 16 ∷ 32 ∷ 64 ∷ 128 ∷ []

-- What a batch costs; the time per stream is its two terms.
pub record Cost : Type 0 where
  pub batch : ℕ
  pub total_us : ℕ
  pub per_stream : ℕ × ℕ

unfoldable pub cost : ℕ → ℕ → Cost
cost b us = record { batch = b; total_us = us; per_stream = (us, b) }

-- the loop over the batches: `measure` gives no time where the memory does not suffice, which ends it
unfoldable pub row : (ℕ → Option ℕ) → List ℕ → List Cost
row measure [] = []
row measure (b ∷ bs) =
    let rest = row measure bs in elim (measure b) [ none ↦ [] | some us ↦ cost b us ∷ rest ]

unfoldable pub batch_table : (ℕ → ℕ → Option ℕ) → ℕ → ℕ → List (Text × List Cost)
batch_table measure sr hop =
    map (λ spec. (spec.0, row (measure (spec.1)) batches)) (chunk_specs sr hop)

-- the streams that a batch sustains: those of the calls that fit into the time of a chunk's audio. A call that
-- took no time raises.
unfoldable pub capacity : ℕ → ℕ → Cost → Option ℕ
capacity sr hop c =
    let audio = chunk_frames sr hop 200000 * hop * 1000000 in
    if c.total_us == 0 then none else some (round (audio * c.batch) (sr * c.total_us))
