-- ===== src/Examples.antt =====
-- Tests of the models on concrete inputs, and each property applied to a concrete input.
mod Streams
mod Codec
mod Metric
mod Partitions
mod Flushed
mod Names
mod Lists
mod Stores
mod Overlaps
mod Logs
mod Runs
mod Restarts
mod Closing
mod Lifetimes
use tstorage.Base.{ℕ, ◌<◌, ◌^◌, ◌≡◌, refl, Bool, true, List, [], ◌∷◌}
use tstorage.Base.{arith, All, ltb, ◌&&◌}
use tstorage.Base.Bits.{bytes_bits}
use tstorage.Words.{IsByte, IsU64}
use tstorage.Rows.{DataPoint}
use tstorage.BStream.{new_stream, new_breader}
use tstorage.BStream.Writes.{Holds, aligned}
use tstorage.BStream.Loads.{Remains}
use tstorage.Encoding.Decoder.RoundTrip.{IsEncodable}

abbrev point : ℕ → ℕ → DataPoint
point t v = record { timestamp = t; value = v }

-- A list of bytes, told by a test.
abbrev all_bytes : List ℕ → Bool
all_bytes [] = true
all_bytes (x ∷ xs) = ltb x 256 && all_bytes xs

all_bytes_lem : (xs : List ℕ) → all_bytes xs ≡ true → All IsByte xs
all_bytes_lem [] e = tt
all_bytes_lem (x ∷ xs) e = (ground (arith, e), all_bytes_lem xs (ground (arith, e)))

remains : (xs : List ℕ) → all_bytes xs ≡ true → Remains (new_breader xs) (bytes_bits xs)
remains xs e = record { bytes = all_bytes_lem xs e; width = omega arith; rest = refl }

is_encodable : (t v : ℕ) → 0 < t → IsU64 t → IsU64 v → IsEncodable (point t v)
is_encodable t v pos ht hv = ((hv, ht), λ e. absurd (omega arith))

abbrev all_encodable : List DataPoint → Bool
all_encodable [] = true
all_encodable (p ∷ ps) =
    ltb 0 p.timestamp && (ltb p.timestamp (2 ^ 64) && (ltb p.value (2 ^ 64) && all_encodable ps))

all_encodable_lem : (ps : List DataPoint) → all_encodable ps ≡ true → All IsEncodable ps
all_encodable_lem [] e = tt
all_encodable_lem (p ∷ ps) e = (
  ((ground (arith, e), ground (arith, e)), λ z. absurd (ground (arith, e, z))),
  all_encodable_lem ps (ground (arith, e)),
)

abbrev three_points : List DataPoint
three_points = point 1000 7 ∷ point 1010 7 ∷ point 1025 9 ∷ []

three-IsEncodable : All IsEncodable three_points
three-IsEncodable = (
  is_encodable 1000 7 (omega arith) (omega arith) (omega arith),
  (
    is_encodable 1010 7 (omega arith) (omega arith) (omega arith),
    (is_encodable 1025 9 (omega arith) (omega arith) (omega arith), tt),
  ),
)

empty-Holds : Holds new_stream []
empty-Holds = aligned (record { full = refl; bytes = tt; holds = refl })
