-- ===== src/DiskPartition.antt =====
-- disk_partition.go: a partition on disk, read through its memory-mapped data file. The mapped file
-- is a list of bytes, and offsets and numbers of points, which `flush` writes, are plain numbers.
pub mod Select
use tstorage.Base.{ℕ, zero, suc, ◌+◌, ◌-◌, Bool, true, false, if◌then◌else◌, ltb}
use tstorage.Base.{List, [], ◌∷◌, Option, none, some, drop}
use tstorage.Words.{slt, sle}
use tstorage.Rows.{DataPoint, Label}
use tstorage.MemoryPartition.{same_name}
use tstorage.Encoding.Decoder.{
  Decode, DecodeError, Outcome, ok, fail, ◌>>=◌, pure, new_decoder, decode_point,
}

pub record DiskMetric : Type 0 where
  pub name : List ℕ
  pub offset : ℕ
  pub min_timestamp : ℕ
  pub max_timestamp : ℕ
  pub num_data_points : ℕ

-- `created_at` and `retention` are in nanoseconds.
pub record Meta : Type 0 where
  pub min_timestamp : ℕ
  pub max_timestamp : ℕ
  pub num_data_points : ℕ
  pub metrics : List (List ℕ × DiskMetric)
  pub created_at : ℕ

pub record DiskPartition : Type 0 where
  pub meta : Meta
  pub mapped_file : List ℕ
  pub retention : ℕ

pub data SelectResult : Type 0 where
  no_data_points : SelectResult
  decode_failed : DecodeError → SelectResult
  selected : List DataPoint → SelectResult

-- `now` is the time of time.Since.
unfoldable pub expired : ℕ → DiskPartition → Bool
expired now d = ltb d.retention (now - d.meta.created_at)

unfoldable pub find_metric : List ℕ → List (List ℕ × DiskMetric) → Option DiskMetric
find_metric name [] = none
find_metric name ((k, m) ∷ ms) =
    let rest = find_metric name ms in if same_name k name then some m else rest

-- The loop of `selectDataPoints`, with `n` rounds left.
unfoldable pub read_range : ℕ → ℕ → ℕ → Decode (List DataPoint)
read_range zero start end = pure []
read_range (suc n) start end =
    let rest = read_range n start end in
    do
      p ← decode_point
      if slt p.timestamp start
          then rest
          else if sle end p.timestamp
          then pure []
          else (do ps ← rest; pure (p ∷ ps))

abbrev result : Outcome (List DataPoint) → SelectResult
result (ok ps) = selected ps
result (fail e) = decode_failed e

-- `name_of` is marshalMetricName.
unfoldable pub disk_select :
    (List ℕ → List Label → List ℕ) → ℕ → DiskPartition → List ℕ → List Label → ℕ → ℕ → SelectResult
disk_select name_of now d metric labels start end =
    if expired now d
    then no_data_points
    else elim (find_metric (name_of metric labels) d.meta.metrics) [
      | none ↦ no_data_points
      | some m ↦
          result
            (read_range m.num_data_points start end (new_decoder (drop m.offset d.mapped_file))).0
    ]

-- What openDiskPartition finds in a directory: its path, whether the meta file is there, and the
-- files' contents, where `none` is a failure to read or decode. `mmap` maps a data file.
pub record Directory : Type 0 where
  pub path : List ℕ
  pub has_meta : Bool
  pub data_file : Option (List ℕ)
  pub meta_file : Option Meta

pub data OpenResult : Type 0 where
  no_dir_path invalid_partition no_points open_failed : OpenResult
  opened : DiskPartition → OpenResult

unfoldable pub open_disk_partition : (List ℕ → Option (List ℕ)) → Directory → ℕ → OpenResult
open_disk_partition mmap dir retention = elim dir.path [
  | [] ↦ no_dir_path
  | c ∷ path ↦
      if dir.has_meta
      then elim dir.data_file [
        | none ↦ open_failed
        | some [] ↦ no_points
        | some (b ∷ bytes) ↦ elim (mmap (b ∷ bytes)) [
          | none ↦ open_failed
          | some mapped ↦ elim dir.meta_file [
            | none ↦ open_failed
            | some m ↦ opened (record { meta = m; mapped_file = mapped; retention = retention })
          ]
        ]
      ]
      else invalid_partition
]
