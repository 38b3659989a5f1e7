-- ===== src/Sweep.antt =====
-- The artifact metrics of streaming/sweep.py. A sample is any type with the square of its value and the
-- square of a difference, as whole numbers of one unit.
pub mod Laws
pub mod Rows
use streaming_tts_serving.Base.{
  ℕ, ◌+◌, ◌-◌, ◌*◌, min, Bool, true, false, List, [], ◌∷◌, length, take, slice, ltb, leb, ◌==◌,
  if◌then◌else◌,
}

-- A level in decibels by the ratio of two powers, of which the source takes the logarithm.
pub data Decibels : Type 0 where
  minus_infinity : Decibels
  ratio : ℕ → ℕ → Decibels
  infinity : Decibels

-- `min` of two levels
unfoldable pub lower : Decibels → Decibels → Decibels
lower minus_infinity y = minus_infinity
lower infinity y = y
lower (ratio p q) minus_infinity = minus_infinity
lower (ratio p q) infinity = ratio p q
lower (ratio p q) (ratio r s) = if leb (p * s) (r * q) then ratio p q else ratio r s

module _ {S : Type 0} (square : S → ℕ) (square_diff : S → S → ℕ) where
  unfoldable pub signal_power : List S → ℕ
  signal_power [] = 0
  signal_power (x ∷ xs) = square x + signal_power xs

  unfoldable pub error_power : List S → List S → ℕ
  error_power [] test = 0
  error_power (x ∷ ref) [] = 0
  error_power (x ∷ ref) (y ∷ test) = square_diff y x + error_power ref test

  unfoldable pub snr_db : List S → List S → Decibels
  snr_db ref test =
      let n = min (length ref) (length test) in
      let p_sig = signal_power (take n ref) in
      let p_err = error_power (take n ref) (take n test) in
      if n == 0
      then minus_infinity
      else if leb p_err 0
      then infinity
      else if leb p_sig 0
      then minus_infinity
      else ratio p_sig p_err

  -- the loop over the seams, with the worst level so far
  unfoldable pub worst_seam : List S → List S → List ℕ → ℕ → Decibels → Decibels
  worst_seam ref test [] half_window worst = worst
  worst_seam ref test (s ∷ seams) half_window worst =
      let lo = s - half_window in
      let hi = min (length ref) (s + half_window) in
      worst_seam ref test seams half_window (
        if ltb (hi - lo) 16
        then worst
        else lower worst (snr_db (slice lo hi ref) (slice lo hi test)))

  unfoldable pub seam_snr_db : List S → List S → List ℕ → ℕ → Decibels
  seam_snr_db ref test seams half_window = worst_seam ref test seams half_window infinity
