-- ===== src/Examples/Logs.antt =====
-- Small write-ahead logs.
use tstorage.Base.{
  ◌-◌, ◌≤◌, ◌≡◌, refl, true, List, [], ◌∷◌, ◌++◌, some, map, take, length, arith, All, append-nil,
}
use tstorage.Rows.{Row}
use tstorage.DiskWal.{DiskWal, WalFiles, new_disk_wal, then_next}
use tstorage.DiskWal.Reader.{read_all}
use tstorage.DiskWal.RoundTrip.{logged_row, IsLoggable}
use tstorage.DiskWal.Writes.{IsWorking, encoded}
use tstorage.DiskWal.Recovery.{LogStep, log_rows, next_segment, run_steps, read_all-run_steps}
use tstorage.DiskWal.Crash.{read_all-cut, IsShort}
use tstorage.Examples.Partitions.{plain_name, row}

-- A buffered writer that writes all bytes at once.
abbrev pub unbuffered : WalFiles
unbuffered = record {
  spill = λ n bytes. (bytes, []);
  writes = λ bytes. true;
  closes = λ i. true;
  creates = λ i. true;
  read_dir = λ segments. some segments;
  removes = true;
}

pub unbuffered-IsWorking : IsWorking unbuffered
unbuffered-IsWorking = record {
  conserves = λ n bytes. append-nil bytes;
  writes = λ bytes. refl;
  closes = λ i. refl;
  creates = λ i. refl;
}

abbrev pub two_rows : List Row
two_rows = row 1000 7 ∷ row 300 2 ∷ []

two-IsLoggable : All (IsLoggable plain_name) two_rows
two-IsLoggable =
    (((omega arith, omega arith), omega arith), (((omega arith, omega arith), omega arith), tt))

-- The second row comes into a segment of its own.
abbrev pub three_steps : List LogStep
three_steps = log_rows (row 1000 7 ∷ []) ∷ next_segment ∷ log_rows (row 300 2 ∷ []) ∷ []

read_all-run_steps_example :
    (w' : DiskWal) × (then_next
        (new_disk_wal unbuffered 4096 [])
        (run_steps plain_name unbuffered three_steps)
      ≡ (true, w'))
    × (read_all w'.segments ≡ some (map (logged_row plain_name) two_rows))
read_all-run_steps_example =
    read_all-run_steps plain_name unbuffered unbuffered-IsWorking 4096 three_steps two-IsLoggable
      (omega arith)

read_all-cut_example :
    (whole : List Row) × (lost : List Row) × (two_rows ≡ whole ++ lost)
    × (read_all ((0, take 9 (encoded plain_name two_rows)) ∷ [])
        ≡ some (map (logged_row plain_name) whole))
    × (length (encoded plain_name whole) ≤ 9)
    × IsShort plain_name (9 - length (encoded plain_name whole)) lost
read_all-cut_example = read_all-cut plain_name 0 9 two_rows two-IsLoggable
