-- ===== src/DiskWal/Recovery.antt =====
-- A log that is written, punctuated and flushed, and then read: all rows are recovered, in order.
use mathlib.Core.Path.{subst}
use tstorage.Base.{
  ℕ, suc, ◌+◌, ◌≤◌, ◌<◌, ◌^◌, ◌≡◌, refl, sym, ap, ◌∙◌, Bool, true, List, [], ◌∷◌, ◌++◌,
  append_assoc, append-nil, some, length, length-append, map, map-append, All, All-split, arith,
}
use tstorage.Rows.{Row, Label}
use tstorage.DiskWal.{
  DiskWal, WalFiles, Segments, then_next, flush_wal, punctuate, new_disk_wal, append,
}
use tstorage.DiskWal.Reader.{read_all}
use tstorage.DiskWal.RoundTrip.{wal_record, logged_row, IsLoggable, read_segment-wal_record}
use tstorage.DiskWal.Writes.{
  IsWorking, IsLog, encoded, IsNumbered, IsNumbered-snoc, flush_wal_lem, append_lem, punctuate_lem,
}

-- What the storage does with its log before it is flushed.
pub data LogStep : Type 0 where
  log_rows : List Row → LogStep
  next_segment : LogStep

abbrev pub rows_of : List LogStep → List Row
rows_of [] = []
rows_of (log_rows rs ∷ steps) = rs ++ rows_of steps
rows_of (next_segment ∷ steps) = rows_of steps

module _ (name_of : List ℕ → List Label → List ℕ) (os : WalFiles) where
  abbrev pub run_steps : List LogStep → DiskWal → Bool × DiskWal
  run_steps [] w = flush_wal os w
  run_steps (log_rows rs ∷ steps) w = then_next (append name_of os rs w) (λ w'. run_steps steps w')
  run_steps (next_segment ∷ steps) w = then_next (punctuate os w) (λ w'. run_steps steps w')

module _ (name_of : List ℕ → List Label → List ℕ) where
  -- Segments told by their rows.
  abbrev Batches : Type 0
  Batches = List (ℕ × List Row)

  abbrev files : Batches → Segments
  files = map (λ e. (e.0, encoded name_of e.1))

  abbrev all_rows : Batches → List Row
  all_rows [] = []
  all_rows ((k, rows) ∷ batches) = rows ++ all_rows batches

  files-snoc :
      (kept : Batches) (k : ℕ) (rows : List Row)
      → files (kept ++ (k, rows) ∷ []) ≡ files kept ++ (k, encoded name_of rows) ∷ []
  files-snoc [] k rows = refl
  files-snoc (e ∷ kept) k rows = ap (◌∷◌ (e.0, encoded name_of e.1)) (files-snoc kept k rows)

  all_rows-snoc :
      (kept : Batches) (k : ℕ) (rows : List Row)
      → all_rows (kept ++ (k, rows) ∷ []) ≡ all_rows kept ++ rows
  all_rows-snoc [] k rows = append-nil rows
  all_rows-snoc ((j, x) ∷ kept) k rows =
      ap (λ z. x ++ z) (all_rows-snoc kept k rows) ∙ sym (append_assoc x (all_rows kept) rows)

  encoded-append :
      (xs ys : List Row) → encoded name_of (xs ++ ys) ≡ encoded name_of xs ++ encoded name_of ys
  encoded-append [] ys = refl
  encoded-append (x ∷ xs) ys =
      ap (λ k. wal_record name_of x ++ k) (encoded-append xs ys)
      ∙ sym (append_assoc (wal_record name_of x) (encoded name_of xs) (encoded name_of ys))

  length-encoded : (rows : List Row) → length rows ≤ length (encoded name_of rows)
  length-encoded [] = omega arith
  length-encoded (r ∷ rows) =
      omega
        (arith, length-encoded rows, length-append (wal_record name_of r) (encoded name_of rows))

  read_all-files :
      (kept : Batches)
      → All (IsLoggable name_of) (all_rows kept)
      → read_all (files kept) ≡ some (map (logged_row name_of) (all_rows kept))
  unfolding read_all
  read_all-files [] h = refl
  read_all-files ((k, rows) ∷ kept) h =
      let (here, rest) = All-split (IsLoggable name_of) rows (all_rows kept) h in
      let fuel : length rows < suc (length (encoded name_of rows)) =
        omega (arith, length-encoded rows) in
      rw
        (
          read_all,
          read_segment-wal_record name_of rows (suc (length (encoded name_of rows))) here fuel,
          read_all-files kept rest,
        )
        (ap some (sym (map-append (logged_row name_of) rows (all_rows kept))))

  module _ (os : WalFiles) (works : IsWorking os) where
    run_steps_lem :
        (steps : List LogStep) (w : DiskWal) (kept : Batches) (active : List Row)
        → IsLog name_of w (files kept) (encoded name_of active)
        → w.index + length steps < 2 ^ 32
        → (w' : DiskWal) × (kept' : Batches) × (run_steps name_of os steps w ≡ (true, w'))
          × (w'.segments ≡ files kept')
          × (all_rows kept' ≡ all_rows kept ++ (active ++ rows_of steps))
          × IsNumbered 0 w'.segments w'.index
          × (w'.index ≤ w.index + length steps)
    run_steps_lem [] w kept active l lt =
        let (w', e, i, l', segments', same) =
          flush_wal_lem name_of os works w (files kept) (encoded name_of active) l in
        (
          w',
          kept ++ (w.fd, active) ∷ [],
          e,
          segments' ∙ sym (files-snoc kept w.fd active),
          all_rows-snoc kept w.fd active ∙ ap (λ k. all_rows kept ++ k) (sym (append-nil active)),
          subst (λ k. IsNumbered 0 w'.segments k) (sym (i ∙ l.index))
              (subst (λ k. IsNumbered 0 k (suc w.fd)) (sym segments')
                (IsNumbered-snoc 0 w.fd (files kept) (encoded name_of active) l.numbered)),
          omega (arith, i),
        )
    run_steps_lem (log_rows rs ∷ steps) w kept active l lt =
        let (w₁, e₁, i₁, l₁) =
          append_lem name_of os works rs w (files kept) (encoded name_of active) l in
        let l₁' = subst (IsLog name_of w₁ (files kept)) (sym (encoded-append active rs)) l₁ in
        let (w', kept', e, s, r, num, le) =
          run_steps_lem steps w₁ kept (active ++ rs) l₁' (omega (arith, lt, i₁)) in
        (
          w',
          kept',
          ap (λ z. then_next z (λ v. run_steps name_of os steps v)) e₁ ∙ e,
          s,
          r ∙ ap (λ k. all_rows kept ++ k) (append_assoc active rs (rows_of steps)),
          num,
          omega (arith, le, i₁),
        )
    run_steps_lem (next_segment ∷ steps) w kept active l lt =
        let (w₁, e₁, i₁, l₁) =
          punctuate_lem name_of os works w (files kept) (encoded name_of active) l
            (omega (arith, lt)) in
        let l₁' = subst (λ k. IsLog name_of w₁ k []) (sym (files-snoc kept w.fd active)) l₁ in
        let (w', kept', e, s, r, num, le) =
          run_steps_lem steps w₁ (kept ++ (w.fd, active) ∷ []) [] l₁' (omega (arith, lt, i₁)) in
        (
          w',
          kept',
          ap (λ z. then_next z (λ v. run_steps name_of os steps v)) e₁ ∙ e,
          s,
          r
              ∙ ap (λ k. k ++ rows_of steps) (all_rows-snoc kept w.fd active)
              ∙ append_assoc (all_rows kept) active (rows_of steps),
          num,
          omega (arith, le, i₁),
        )

    -- A new log, what is done with it, and what is in it then.
    pub run_from_start :
        (buffered_size : ℕ) (steps : List LogStep)
        → All (IsLoggable name_of) (rows_of steps)
        → 1 + length steps < 2 ^ 32
        → (w' : DiskWal) × (then_next
              (new_disk_wal os buffered_size [])
              (run_steps name_of os steps)
            ≡ (true, w'))
          × (read_all w'.segments ≡ some (map (logged_row name_of) (rows_of steps)))
          × IsNumbered 0 w'.segments w'.index
          × (w'.index ≤ 1 + length steps)
    run_from_start buffered_size steps h lt =
        let w : DiskWal = record {
          buffered_size = buffered_size;
          segments = (0, []) ∷ [];
          fd = 0;
          buffer = [];
          index = 1;
        } in
        let l : IsLog name_of w [] [] = record {
          file = [];
          segments = refl;
          holds = refl;
          below = tt;
          index = refl;
          numbered = refl;
        } in
        let (w', kept, e, s, r, num, le) = run_steps_lem steps w [] [] l lt in
        (
          w',
          rw (works.creates 0) e,
          ap read_all s
              ∙ read_all-files kept (subst (All (IsLoggable name_of)) (sym r) h)
              ∙ ap (λ k. some (map (logged_row name_of) k)) r,
          num,
          le,
        )

    -- A new log in an empty directory, whose files can be made, written and closed, that takes rows
    -- and starts segments in any order (fewer than 2 ^ 32 times) and is flushed, reports no error,
    -- and readAll on its segments in the order of their indices recovers all rows in order, each
    -- with its point and with its marshalled name as its metric, when points fit into 64 bits and
    -- the names' lengths into an int.
    pub read_all-run_steps :
        (buffered_size : ℕ) (steps : List LogStep)
        → All (IsLoggable name_of) (rows_of steps)
        → 1 + length steps < 2 ^ 32
        → (w' : DiskWal) × (then_next
              (new_disk_wal os buffered_size [])
              (run_steps name_of os steps)
            ≡ (true, w'))
          × (read_all w'.segments ≡ some (map (logged_row name_of) (rows_of steps)))
    read_all-run_steps buffered_size steps h lt =
        let (w', e, r, num, le) = run_from_start buffered_size steps h lt in (w', e, r)
