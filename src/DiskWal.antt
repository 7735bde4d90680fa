-- ===== src/DiskWal.antt =====
-- disk_wal.go: the write-ahead log on disk. The segments are an association list from the indices
-- that name them to their bytes, in the order of their creation; a write to a segment that has been
-- removed is lost with its file. That the buffered writer fails for ever after an error is left out.
pub mod Reader
pub mod RoundTrip
pub mod Writes
pub mod Recovery
pub mod Crash
pub mod Reopen
pub mod Ends
use tstorage.Base.{
  ℕ, suc, ◌+◌, ◌%◌, ◌^◌, Bool, true, false, ◌&&◌, ◌==◌, if◌then◌else◌, List, [], ◌∷◌, ◌++◌, Option,
  none, some, length,
}
use tstorage.Rows.{Row, Label}
use tstorage.Varint.{put_uvarint, put_varint}
use tstorage.Wal.{Wal}

abbrev pub operation_insert : ℕ
operation_insert = 0

abbrev pub Segments : Type 0
Segments = List (ℕ × List ℕ)

-- `fd` is the index of the active segment, `buffer` what the buffered writer has not written yet.
pub record DiskWal : Type 0 where
  pub buffered_size : ℕ
  pub segments : Segments
  pub fd : ℕ
  pub buffer : List ℕ
  pub index : ℕ

-- What the operating system does: whether a file takes bytes, closes, is made, and whether the
-- directory can be read and removed. `spill` is the buffered writer: of the bytes that wait in a
-- buffer of a size, those that it writes, and those that it keeps.
pub record WalFiles : Type 0 where
  pub spill : ℕ → List ℕ → List ℕ × List ℕ
  pub writes : List ℕ → Bool
  pub closes : ℕ → Bool
  pub creates : ℕ → Bool
  pub read_dir : Segments → Option Segments
  pub removes : Bool

-- Bytes at the end of the segment `i`.
abbrev pub put_bytes : ℕ → List ℕ → Segments → Segments
put_bytes i bytes [] = []
put_bytes i bytes ((k, bs) ∷ segments) =
    let rest = put_bytes i bytes segments in
    if k == i then (k, bs ++ bytes) ∷ segments else (k, bs) ∷ rest

-- O_CREATE: a file that is there stays as it is.
abbrev pub create_file : ℕ → Segments → Segments
create_file i [] = (i, []) ∷ []
create_file i ((k, bs) ∷ segments) =
    let rest = create_file i segments in if k == i then (k, bs) ∷ segments else (k, bs) ∷ rest

abbrev pub remove_file : ℕ → Segments → Segments
remove_file i [] = []
remove_file i ((k, bs) ∷ segments) =
    let rest = remove_file i segments in if k == i then segments else (k, bs) ∷ rest

-- `name_of` is marshalMetricName.
module _ (name_of : List ℕ → List Label → List ℕ) where
  -- What is written for a row, in the calls of the writer.
  abbrev pub record_chunks : Row → List (List ℕ)
  record_chunks row =
      let name = name_of row.metric row.labels in
      (operation_insert ∷ [])
      ∷ put_uvarint (length name)
      ∷ name
      ∷ put_varint row.point.timestamp
      ∷ put_uvarint row.point.value
      ∷ []

abbrev pub then_next : Bool × DiskWal → (DiskWal → Bool × DiskWal) → Bool × DiskWal
then_next (false, w) next = (false, w)
then_next (true, w) next = next w

module _ (os : WalFiles) where
  -- `bytes` go from the buffer to the file, and `kept` stays.
  abbrev pub spilled : DiskWal → List ℕ × List ℕ → Bool × DiskWal
  spilled w (bytes, kept) =
      if os.writes bytes
      then (true, record w { segments = put_bytes w.fd bytes w.segments; buffer = kept })
      else (false, w)

  abbrev pub write_chunk : List ℕ → DiskWal → Bool × DiskWal
  write_chunk bytes w = spilled w (os.spill w.buffered_size (w.buffer ++ bytes))

  abbrev pub write_chunks : List (List ℕ) → DiskWal → Bool × DiskWal
  write_chunks [] w = (true, w)
  write_chunks (c ∷ chunks) w = then_next (write_chunk c w) (λ w'. write_chunks chunks w')

  abbrev pub flush_wal : DiskWal → Bool × DiskWal
  flush_wal w = spilled w (w.buffer, [])

  -- A new segment with a new buffer.
  abbrev pub create_segment_file : DiskWal → Bool × DiskWal
  create_segment_file w =
      if os.creates w.index
      then (
        true,
        record w {
          segments = create_file w.index w.segments;
          fd = w.index;
          buffer = [];
          index = (w.index + 1) % 2 ^ 32;
        },
      )
      else (false, w)

  abbrev pub close_file : DiskWal → Bool × DiskWal
  close_file w = (os.closes w.fd, w)

  abbrev pub punctuate : DiskWal → Bool × DiskWal
  punctuate w = then_next (then_next (flush_wal w) close_file) create_segment_file

  abbrev pub remove_oldest : DiskWal → Bool × DiskWal
  remove_oldest w = elim (os.read_dir w.segments) [
    | none ↦ (false, w)
    | some [] ↦ (false, w)
    | some (file ∷ files) ↦
        if os.removes
        then (true, record w { segments = remove_file file.0 w.segments })
        else (false, w)
  ]

  abbrev pub remove_dir : DiskWal → Bool × DiskWal
  remove_dir w = if os.removes then (true, record w { segments = [] }) else (false, w)

  abbrev pub remove_all : DiskWal → Bool × DiskWal
  remove_all w = then_next (close_file w) remove_dir

  abbrev pub refresh : DiskWal → Bool × DiskWal
  refresh w = then_next (remove_all w) create_segment_file

  -- `segments` are the files of the directory.
  abbrev pub new_disk_wal : ℕ → Segments → Bool × DiskWal
  new_disk_wal buffered_size segments = create_segment_file (record {
    buffered_size = buffered_size;
    segments = segments;
    fd = 0;
    buffer = [];
    index = 0;
  })

module _ (name_of : List ℕ → List Label → List ℕ) (os : WalFiles) where
  abbrev pub append_rows : List Row → DiskWal → Bool × DiskWal
  append_rows [] w = (true, w)
  append_rows (r ∷ rs) w =
      then_next (write_chunks os (record_chunks name_of r) w) (λ w'. append_rows rs w')

  abbrev pub append : List Row → DiskWal → Bool × DiskWal
  append rows w =
      then_next (append_rows rows w)
        (λ w'. if w'.buffered_size == 0 then flush_wal os w' else (true, w'))

  abbrev pub disk_wal : Wal DiskWal
  disk_wal = record {
    append = append;
    flush = flush_wal os;
    punctuate = punctuate os;
    remove_oldest = remove_oldest os;
    remove_all = remove_all os;
    refresh = refresh os;
  }
