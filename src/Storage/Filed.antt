-- ===== src/Storage/Filed.antt =====
-- Rows that are put into a partition and found again in its directory.
use mathlib.Core.Path.{subst}
use mathlib.Core.List.{Perm}
use mathlib.Core.List.Perm
use tstorage.Base.{
  ℕ, ◌-◌, ◌≤◌, ◌≡◌, ◌≢◌, refl, sym, Bool, true, List, [], ◌∷◌, Option, some, All, IsOrdered, filter,
}
use tstorage.Base.Members.{All-Perm}
use tstorage.Rows.{DataPoint, Label, Row}
use tstorage.Encoding.Decoder.RoundTrip.{IsEncodable}
use tstorage.MemoryMetric.Encode.{IsUpTo, Sorts}
use tstorage.MemoryPartition.{MemoryPartition, insert_rows, inserted}
use tstorage.MemoryPartition.Contents.{contents, points_with, insert_rows-Grown}
use tstorage.MemoryPartition.Insert.{IsValidPartition}
use tstorage.MemoryPartition.Spelled.{insert_rows-AllNames}
use tstorage.DiskPartition.{
  DiskPartition, Directory, Meta, disk_select, selected, open_disk_partition, opened,
}
use tstorage.DiskPartition.Select.{in_range}
use tstorage.Flush.{flush_partition}
use tstorage.Flush.Select.{flushed}
use tstorage.Flush.Stored.{IsEncodable-prop, contents-disk_select}
use tstorage.Flush.Ranges.{contents-nil}
use tstorage.Flush.Texts.{IsNamedInText}
use tstorage.Storage.Upkeep.{System, flush_into}
use tstorage.Storage.Persist.{IsReliable, with_files, flush_into_lem}

-- The two files open as they were written.
open-written :
    (mmap : List ℕ → Option (List ℕ)) (path file : List ℕ) (c retention : ℕ) (meta : Meta)
    → ((bytes : List ℕ) → mmap bytes ≡ some bytes)
    → file ≢ []
    → open_disk_partition mmap (with_files (c ∷ path) (file, meta)) retention
      ≡ opened (record { meta = meta; mapped_file = file; retention = retention })
unfolding open_disk_partition
open-written mmap path [] c retention meta maps some_byte = absurd (some_byte refl)
open-written mmap path (b ∷ bytes) c retention meta maps some_byte = rw (maps (b ∷ bytes)) refl

module _ (sys : System) (reliable : IsReliable sys) (sorts : Sorts sys.sort)
    (ok : (xs : List ℕ) → sys.write xs ≡ true) (name_of : List ℕ → List Label → List ℕ)
    (clock : ℕ → ℕ) (append : List Row → Bool) where
  -- Rows that insertRows puts into a valid partition, when the WAL takes them, are what a selection
  -- finds behind a flush: let the operating system, encoding/json and sort.Slice do what they
  -- document without an error, the data file take its bytes, and all names of metrics be valid
  -- UTF-8. Then flush of the partition gives a directory, which openDiskPartition opens, and the
  -- disk partition that it gives, while not older than its retention, selects for a metric that has
  -- points, all of them encodable, the points from start to end, end excluded, of a list that is in
  -- the order of timestamps and a permutation of what the partition had under the metric's name and
  -- the points of the rows of that name that are not outdated.
  pub insert_rows-flush_into :
      (p : MemoryPartition) (r : Row) (rs : List Row) (path : List ℕ) (retention now : ℕ)
      (metric : List ℕ) (labels : List Label) (start end : ℕ)
      → IsValidPartition p
      → append (r ∷ rs) ≡ true
      → IsNamedInText sys.is_text p
      → All (λ x. sys.is_text (name_of x.metric x.labels) ≡ true) (r ∷ rs)
      → points_with name_of clock append p r rs (name_of metric labels) ≢ []
      → All IsEncodable (points_with name_of clock append p r rs (name_of metric labels))
      → now - sys.now ≤ retention
      → (outdated : List Row) × (p' : MemoryPartition) × (dir : Directory) × (d : DiskPartition)
        × (ps : List DataPoint) × (insert_rows name_of clock append p (r ∷ rs)
            ≡ inserted outdated p')
        × (flush_into sys (sys.partition_path path p'.min_t p'.max_t) p' ≡ some dir)
        × (open_disk_partition sys.mmap dir retention ≡ opened d)
        × (disk_select name_of now d metric labels start end
            ≡ selected (filter (in_range start end) ps))
        × IsOrdered IsUpTo ps
        × Perm ps (points_with name_of clock append p r rs (name_of metric labels))
  insert_rows-flush_into p r rs path retention now metric labels start end v took text texts
        some_held all young =
      let name = name_of metric labels in
      let (outdated, p', e, low, g) =
        insert_rows-Grown name_of clock append p r rs v.metrics v.named took in
      let perm : Perm (contents name p'.metrics) (points_with name_of clock append p r rs name) =
        g.holds name in
      let held : contents name p'.metrics ≢ [] = λ empty. some_held (
        sym (
          Perm.nil-eq
            (subst (λ z. Perm z (points_with name_of clock append p r rs name)) empty perm))) in
      let out = flush_partition sys.sort sys.write sys.now p' in
      let (c, rest, put) = flush_into_lem sys reliable path p'.min_t p'.max_t p' (
        insert_rows-AllNames (λ n. sys.is_text n ≡ true) name_of clock append p p' r rs outdated
          texts text took e) in
      let (ps, e', o, perm') =
        contents-disk_select sys.sort sys.write name_of sys.now retention now p' metric labels start
          end sorts ok g.valid g.named held
          (All-Perm IsEncodable IsEncodable-prop _ _ (Perm.symm perm) all) young in
      let opens = open-written sys.mmap rest out.0 c retention out.1 reliable.maps (λ empty.
        held (contents-nil sys.sort sorts p' name sys.write sys.now g.valid g.named ok empty)) in
      (
        outdated,
        p',
        with_files (c ∷ rest) out,
        flushed sys.sort sys.write sys.now retention p',
        ps,
        e,
        put,
        opens,
        e',
        o,
        Perm.trans perm' perm,
      )
