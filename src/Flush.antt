-- ===== src/Flush.antt =====
-- storage.go: `flush`, which writes the metrics of a partition in memory to a data file and a meta
-- file. The data file is the list of its bytes. A failing write ends the loop over the metrics with
-- a log line, and the meta file is written all the same.
pub mod Placed
pub mod Select
pub mod Stored
pub mod Ranges
pub mod Texts
use tstorage.Base.{
  ℕ, ◌+◌, Bool, true, false, if◌then◌else◌, List, [], ◌∷◌, ◌++◌, Option, none, some, length,
}
use tstorage.Rows.{DataPoint}
use tstorage.Encoding.{Encoder, new_encoder, encode_point, flush}
use tstorage.MemoryMetric.{MemoryMetric, encode_all_points}
use tstorage.MemoryPartition.{MemoryPartition, Metrics, same_name}
use tstorage.DiskPartition.{DiskMetric, Meta}

abbrev pub Entries : Type 0
Entries = List (List ℕ × DiskMetric)

-- The file so far, the encoder, and the map of the meta file.
pub record Files : Type 0 where
  pub written : List ℕ
  pub encoder : Encoder
  pub entries : Entries

-- metrics[name] = entry
pub set_entry : List ℕ → DiskMetric → Entries → Entries
set_entry name entry [] = (name, entry) ∷ []
set_entry name entry ((k, m) ∷ ms) =
    let rest = set_entry name entry ms in
    if same_name k name then (k, entry) ∷ ms else (k, m) ∷ rest

-- encodePoint of the Gorilla encoder never fails.
abbrev pub encode_some : Encoder → DataPoint → Option Encoder
encode_some e p = some (encode_point e p)

abbrev pub disk_metric : MemoryMetric → ℕ → DiskMetric
disk_metric m offset = record {
  name = m.name;
  offset = offset;
  min_timestamp = m.min_timestamp;
  max_timestamp = m.max_timestamp;
  num_data_points = m.size + length m.out_of_order_points;
}

-- `sort` is sort.Slice by timestamp, and `write` says whether the file took the bytes.
module _ (sort : List DataPoint → List DataPoint) (write : List ℕ → Bool) where
  -- What follows the encoding of the points of `m`.
  pub flush_encoded : MemoryMetric → Files → Option Encoder → Option Files
  flush_encoded m f none = none
  flush_encoded m f (some e) = elim (flush write e) [
    | none ↦ none
    | some (bytes, e') ↦ some (record {
      written = f.written ++ bytes;
      encoder = e';
      entries = set_entry m.name (disk_metric m (length f.written)) f.entries;
    })
  ]

  -- encodeAllPoints sorts the out-of-order points in place, so the metric after it is the one used.
  pub flush_metric : MemoryMetric → Files → Option Files
  flush_metric m f =
      let done = encode_all_points encode_some sort f.encoder m in flush_encoded done.1 f done.0

  pub flush_loop : Metrics → Files → Files
  flush_loop [] f = f
  flush_loop ((k, m) ∷ ms) f = elim (flush_metric m f) [ none ↦ f | some f' ↦ flush_loop ms f' ]

  -- The data file and the meta file; `now` is the time of creation.
  unfoldable pub flush_partition : ℕ → MemoryPartition → List ℕ × Meta
  flush_partition now p =
      let f = flush_loop p.metrics (record { written = []; encoder = new_encoder; entries = [] }) in
      (
        f.written,
        record {
          min_timestamp = p.min_t;
          max_timestamp = p.max_t;
          num_data_points = p.num_points;
          metrics = f.entries;
          created_at = now;
        },
      )
