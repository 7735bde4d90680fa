-- ===== src/DiskWal/Reader.antt =====
-- disk_wal.go: the reader of the segments, which recovers the rows.
use tstorage.Base.{
  ℕ, zero, suc, ◌==◌, ◌^◌, ltb, leb, if◌then◌else◌, List, [], ◌∷◌, ◌++◌, Option, none, some, length,
  take, drop,
}
use tstorage.Rows.{Row}
use tstorage.Varint.{Result, ok, err, read_uvarint, read_varint, eof, overflow}
use tstorage.DiskWal.{Segments, operation_insert}

-- What a reader of a segment meets: io.EOF or io.ErrUnexpectedEOF in a record, a varint that is too
-- long, an operation that is not known, or a panic of make for a length that is no int.
pub data SegmentError : Type 0 where
  truncated overflowed unknown_operation bad_length : SegmentError

-- The end of a segment, an error, or a record with the bytes that follow it.
pub data Next : Type 0 where
  finished : Next
  broken : SegmentError → Next
  has_record : Row → List ℕ → Next

abbrev pub read_byte : List ℕ → Option ℕ × List ℕ
read_byte [] = (none, [])
read_byte (b ∷ bytes) = (some b, bytes)

abbrev varint_error : tstorage.Varint.Error → SegmentError
varint_error eof = truncated
varint_error overflow = overflowed

abbrev pub with_number : Result ℕ × List ℕ → (ℕ → List ℕ → Next) → Next
with_number (err e, bytes) f = broken (varint_error e)
with_number (ok n, bytes) f = f n bytes

abbrev pub recovered_row : List ℕ → ℕ → ℕ → Row
recovered_row metric timestamp value = record {
  metric = metric;
  labels = [];
  point = record { value = value; timestamp = timestamp };
}

-- make([]byte, int(n)), which panics from 2 ^ 63 on, and io.ReadFull of `n` bytes. Memory is taken to
-- be enough for a smaller length.
abbrev pub with_bytes : ℕ → List ℕ → (List ℕ → List ℕ → Next) → Next
with_bytes n bytes f =
    if ltb n (2 ^ 63)
    then (if leb n (length bytes) then f (take n bytes) (drop n bytes) else broken truncated)
    else broken bad_length

-- The value, the timestamp and the value, and the whole record behind the operation.
abbrev pub read_value : List ℕ → ℕ → List ℕ → Next
read_value metric timestamp bytes =
    with_number (read_uvarint read_byte bytes)
      (λ value rest. has_record (recovered_row metric timestamp value) rest)

abbrev pub read_point : List ℕ → List ℕ → Next
read_point metric bytes = with_number (read_varint read_byte bytes) (read_value metric)

unfoldable pub read_record : List ℕ → Next
read_record bytes =
    with_number (read_uvarint read_byte bytes) (λ n rest. with_bytes n rest read_point)

unfoldable pub next : List ℕ → Next
next [] = finished
next (op ∷ bytes) =
    let r = read_record bytes in if op == operation_insert then r else broken unknown_operation

abbrev pub with_record :
    (List ℕ → List Row × Option SegmentError) → Next → List Row × Option SegmentError
with_record more finished = ([], none)
with_record more (broken e) = ([], some e)
with_record more (has_record r rest) = let (rs, e) = more rest in (r ∷ rs, e)

-- The loop over the records of a segment, on fuel: each record takes a byte at least.
unfoldable pub read_segment : ℕ → List ℕ → List Row × Option SegmentError
read_segment zero bytes = ([], none)
read_segment (suc k) bytes = with_record (λ rest. read_segment k rest) (next bytes)

-- readAll on the segments in the order of their names, which are files that can be opened and read:
-- the rows, or none on an error or a panic. A segment that ends in a record ends the reading.
abbrev pub after_segment : List Row → Option SegmentError → Option (List Row) → Option (List Row)
after_segment rows (some truncated) rest = some rows
after_segment rows (some overflowed) rest = none
after_segment rows (some unknown_operation) rest = none
after_segment rows (some bad_length) rest = none
after_segment rows none none = none
after_segment rows none (some more) = some (rows ++ more)

unfoldable pub read_all : Segments → Option (List Row)
read_all [] = some []
read_all ((k, bytes) ∷ segments) =
    let (rows, e) = read_segment (suc (length bytes)) bytes in
    after_segment rows e (read_all segments)

-- diskWALReader; `read_dir` gives the files of the directory in the order of their names, or none
-- on an error.
pub record WalReader : Type 0 where
  pub files : Segments
  pub rows_to_insert : List Row

unfoldable pub new_disk_wal_reader : (Segments → Option Segments) → Segments → Option WalReader
new_disk_wal_reader read_dir segments = elim (read_dir segments) [
  | none ↦ none
  | some files ↦ some (record { files = files; rows_to_insert = [] })
]

-- `readAll` as a method of the reader, which keeps the rows.
unfoldable pub cache_all : WalReader → Option WalReader
cache_all r = elim (read_all r.files) [
  | none ↦ none
  | some rows ↦ some (record r { rows_to_insert = r.rows_to_insert ++ rows })
]
