-- ===== src/DiskWal/Ends.antt =====
-- The loop over the records of a segment ends, on any bytes, and what it recovers is well formed.
use tstorage.Base.{
  ℕ, zero, suc, ◌^◌, ltb, ◌≤◌, ◌<◌, ◌≡◌, refl, Bool-cases, inl, inr, ◌==◌, leb, List, [], ◌∷◌,
  Option, none, some, length, take, drop, length-drop, All, arith,
}
use tstorage.Words.{IsU64}
use tstorage.Rows.{Row, IsPoint}
use tstorage.Varint.{Result, ok, err, read_uvarint, read_varint}
use tstorage.DiskWal.{operation_insert}
use tstorage.Varint.Consumes.{Fits, Fits-le, read_uvarint-Fits, read_varint-Fits}
use tstorage.DiskWal.Reader.{
  Next, finished, broken, has_record, SegmentError, read_byte, with_number, with_bytes, read_value,
  read_point, read_record, recovered_row, with_record, read_segment, after_segment, read_all,
  truncated, overflowed, unknown_operation,
}
use tstorage.DiskWal.Reader

-- The loop `for segment.next()`, as a relation between the bytes, the rows and the error.
pub data Reads : List ℕ → List Row → Option SegmentError → Type 0 where
  ends : {bytes : List ℕ} → Reader.next bytes ≡ finished → Reads bytes [] none
  fails :
      {bytes : List ℕ} (e : SegmentError) → Reader.next bytes ≡ broken e → Reads bytes [] (some e)
  goes :
      {bytes : List ℕ} (r : Row) (rest : List ℕ) {rows : List Row} {e : Option SegmentError}
      → Reader.next bytes ≡ has_record r rest
      → Reads rest rows e
      → Reads bytes (r ∷ rows) e

-- A row that could have been written.
abbrev pub IsRecovered : Row → Type 0
IsRecovered r = IsPoint r.point × (r.labels ≡ [])

-- A record leaves at most `n` bytes, and its row is well formed.
abbrev Leaves : ℕ → Next → Type 0
Leaves n finished = Unit {0}
Leaves n (broken e) = Unit {0}
Leaves n (has_record r rest) = (length rest ≤ n) × IsRecovered r

read_byte-shrinks : (bytes : List ℕ) → length (read_byte bytes).1 ≤ length bytes
read_byte-shrinks [] = omega arith
read_byte-shrinks (b ∷ bytes) = omega arith

-- A rest after a number.
abbrev Continues : ℕ → (ℕ → List ℕ → Next) → Type 0
Continues n f = (x : ℕ) (rest : List ℕ) → IsU64 x → length rest ≤ n → Leaves n (f x rest)

with_number-Leaves :
    (n : ℕ) (r : Result ℕ × List ℕ) (f : ℕ → List ℕ → Next)
    → Fits read_byte length read_byte-shrinks n r
    → Continues n f
    → Leaves n (with_number r f)
with_number-Leaves n (err e, rest) f h next = tt
with_number-Leaves n (ok x, rest) f (h, h') next = next x rest h' h

unsigned_lem :
    (n : ℕ) (bytes : List ℕ) (f : ℕ → List ℕ → Next)
    → length bytes ≤ n
    → Continues n f
    → Leaves n (with_number (read_uvarint read_byte bytes) f)
unsigned_lem n bytes f le next =
    with_number-Leaves n (read_uvarint read_byte bytes) f
      (Fits-le read_byte length read_byte-shrinks (length bytes) n _ le
        (read_uvarint-Fits read_byte length read_byte-shrinks bytes))
      next

signed_lem :
    (n : ℕ) (bytes : List ℕ) (f : ℕ → List ℕ → Next)
    → length bytes ≤ n
    → Continues n f
    → Leaves n (with_number (read_varint read_byte bytes) f)
signed_lem n bytes f le next =
    with_number-Leaves n (read_varint read_byte bytes) f
      (Fits-le read_byte length read_byte-shrinks (length bytes) n _ le
        (read_varint-Fits read_byte length read_byte-shrinks bytes))
      next

with_bytes-Leaves :
    (n k : ℕ) (bytes : List ℕ) → length bytes ≤ n → Leaves n (with_bytes k bytes read_point)
with_bytes-Leaves n k bytes le = elim (Bool-cases (ltb k (2 ^ 63))) [
  | inr long ↦ rw long tt
  | inl int ↦ elim (Bool-cases (leb k (length bytes))) [
    | inl enough ↦
        rw (int, enough)
          (signed_lem n (drop k bytes) (read_value (take k bytes))
            (omega (arith, length-drop k bytes, le))
            (λ t rest ht le'.
              unsigned_lem n rest _ le' (λ v rest' hv le''. (le'', ((hv, ht), refl)))))
    | inr short ↦ rw (int, short) tt
  ]
]

read_record-Leaves : (bytes : List ℕ) → Leaves (length bytes) (read_record bytes)
unfolding read_record
read_record-Leaves bytes =
    unsigned_lem (length bytes) bytes _ (omega arith)
      (λ n rest hn le. with_bytes-Leaves (length bytes) n rest le)

next-Leaves : (op : ℕ) (bytes : List ℕ) → Leaves (length bytes) (Reader.next (op ∷ bytes))
unfolding Reader.next
next-Leaves op bytes = elim (Bool-cases (op == operation_insert)) [
  | inl known ↦ rw known (read_record-Leaves bytes)
  | inr unknown ↦ rw unknown tt
]

-- The loop with enough fuel.
abbrev Ends : List ℕ → List Row × Option SegmentError → Type 0
Ends bytes r = Reads bytes r.0 r.1 × All IsRecovered r.0

with_record-Ends :
    (bytes : List ℕ) (n : ℕ) (more : List ℕ → List Row × Option SegmentError) (x : Next)
    → Reader.next bytes ≡ x
    → Leaves n x
    → ((rest : List ℕ) → length rest ≤ n → Ends rest (more rest))
    → Ends bytes (with_record more x)
with_record-Ends bytes n more finished e h rest = (ends e, tt)
with_record-Ends bytes n more (broken why) e h rest = (fails why e, tt)
with_record-Ends bytes n more (has_record r left) e (le, h) rest =
    let (reads, all) = rest left le in (goes r left e reads, (h, all))

read_segment-Ends : (k : ℕ) (bytes : List ℕ) → length bytes < k → Ends bytes (read_segment k bytes)
unfolding read_segment Reader.next
read_segment-Ends zero bytes lt = absurd (omega arith)
read_segment-Ends (suc k) [] lt = (ends refl, tt)
read_segment-Ends (suc k) (op ∷ bytes) lt =
    with_record-Ends (op ∷ bytes) (length bytes) (read_segment k) (Reader.next (op ∷ bytes)) refl
      (next-Leaves op bytes) (λ rest le. read_segment-Ends k rest (omega (arith, lt, le)))

-- readAll's loop over a segment of any bytes ends by its own test, within one round more than there
-- are bytes: its rows are those of the records that follow one another from the start of the
-- segment, up to the end of the bytes, to the error that it returns, or to the panic of make for a
-- length of 2 ^ 63 or more (memory is taken to be enough for smaller lengths).
pub read_segment-Reads :
    (bytes : List ℕ)
    → Reads bytes
        (read_segment (suc (length bytes)) bytes).0
        (read_segment (suc (length bytes)) bytes).1
read_segment-Reads bytes = (read_segment-Ends (suc (length bytes)) bytes (omega arith)).0
