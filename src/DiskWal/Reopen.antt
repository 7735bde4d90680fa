-- ===== src/DiskWal/Reopen.antt =====
-- The log in the directory of an older one: what newDiskWAL leaves to be read, and what `refresh`
-- leaves of it.
use tstorage.Base.{
  ℕ, ◌≤◌, ◌≡◌, refl, true, false, ◌==◌, Bool, Bool-cases, inl, inr, List, [], ◌∷◌, ◌++◌, Option,
  some, arith,
}
use tstorage.Rows.{Row, Label}
use tstorage.DiskWal.{
  DiskWal, WalFiles, Segments, create_file, new_disk_wal, write_chunk, write_chunks, record_chunks,
  append_rows, append, punctuate, refresh, then_next, flush_wal,
}
use tstorage.DiskWal.Reader.{read_all, read_segment}
use tstorage.DiskWal.Reader
use tstorage.DiskWal.Writes.{IsWorking, IsNumbered}

-- ReadDir sorts by name, which is the index in decimal: one digit keeps the order.
abbrev pub ReadsInOrder : (Segments → Option Segments) → Type 0
ReadsInOrder read_dir =
    (segments : Segments) (n : ℕ)
    → IsNumbered 0 segments n
    → n ≤ 10
    → read_dir segments ≡ some segments

-- The first segment is made, if there is none.
pub reopened :
    (segments : Segments) (n : ℕ)
    → IsNumbered 0 segments n
    → n ≤ 10
    → (k : ℕ) × IsNumbered 0 (create_file 0 segments) k
      × (k ≤ 10)
      × (read_all (create_file 0 segments) ≡ read_all segments)
unfolding read_all read_segment Reader.next
reopened [] n e le = (1, (refl, refl), omega arith, refl)
reopened ((k, bs) ∷ segments) n (e, h) le =
    let same : (k == 0) ≡ true = ground (arith, e) in (n, rw same (e, h), le, rw same refl)

then_next-true :
    (r : Bool × DiskWal) (f : DiskWal → Bool × DiskWal)
    → r.0 ≡ true
    → ((w : DiskWal) → (f w).0 ≡ true)
    → (then_next r f).0 ≡ true
then_next-true (true, w) f e h = h w
then_next-true (false, w) f e h = cc

module _ (os : WalFiles) (works : IsWorking os) where
  pub new_disk_wal_lem :
      (b : ℕ) (segments : Segments)
      → (w : DiskWal) × (new_disk_wal os b segments ≡ (true, w))
        × (w.segments ≡ create_file 0 segments)
  new_disk_wal_lem b segments = (
    record { buffered_size = b; segments = create_file 0 segments; fd = 0; buffer = []; index = 1 },
    rw (works.creates 0) refl,
    refl,
  )

  flush_wal-true : (w : DiskWal) → (flush_wal os w).0 ≡ true
  flush_wal-true w = rw (works.writes w.buffer) refl

  pub refresh_lem :
      (w : DiskWal)
      → os.removes ≡ true
      → ((refresh os w).0 ≡ true)
        × ((refresh os w).1.segments ≡ (w.index, []) ∷ [])
        × ((refresh os w).1.buffer ≡ [])
  refresh_lem w removes = rw (works.closes w.fd, removes, works.creates w.index) (refl, refl, refl)

  pub punctuate-true : (w : DiskWal) → (punctuate os w).0 ≡ true
  punctuate-true w = rw (works.writes w.buffer, works.closes w.fd, works.creates w.index) refl

  write_chunk-true : (c : List ℕ) (w : DiskWal) → (write_chunk os c w).0 ≡ true
  write_chunk-true c w = rw (works.writes (os.spill w.buffered_size (w.buffer ++ c)).0) refl

  write_chunks-true : (chunks : List (List ℕ)) (w : DiskWal) → (write_chunks os chunks w).0 ≡ true
  write_chunks-true [] w = refl
  write_chunks-true (c ∷ chunks) w =
      then_next-true (write_chunk os c w) (write_chunks os chunks) (write_chunk-true c w)
        (write_chunks-true chunks)

  module _ (name_of : List ℕ → List Label → List ℕ) where
    append_rows-true : (rows : List Row) (w : DiskWal) → (append_rows name_of os rows w).0 ≡ true
    append_rows-true [] w = refl
    append_rows-true (r ∷ rows) w =
        then_next-true (write_chunks os (record_chunks name_of r) w) (append_rows name_of os rows)
          (write_chunks-true (record_chunks name_of r) w) (append_rows-true rows)

    pub append-true : (rows : List Row) (w : DiskWal) → (append name_of os rows w).0 ≡ true
    append-true rows w =
        then_next-true (append_rows name_of os rows w) _ (append_rows-true rows w) (λ w'.
          elim (Bool-cases (w'.buffered_size == 0)) [
            | inl unbuffered ↦ rw unbuffered (flush_wal-true w')
            | inr buffered ↦ rw buffered refl
          ])
