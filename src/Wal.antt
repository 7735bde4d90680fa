-- ===== src/Wal.antt =====
-- wal.go: the write-ahead log as the storage sees it. An operation gives whether it succeeded, and
-- the log after it. `append` has operationInsert, the only operation there is.
use tstorage.Base.{Bool, true, List, Option, none, some}
use tstorage.Rows.{Row}

pub record Wal (W : Type 0) : Type 0 where
  pub append : List Row → W → Bool × W
  pub flush : W → Bool × W
  pub punctuate : W → Bool × W
  pub remove_oldest : W → Bool × W
  pub remove_all : W → Bool × W
  pub refresh : W → Bool × W

abbrev lift : {W : Type 0} → (W → Bool × W) → Option W → Bool × Option W
lift op none = (true, none)
lift op (some w) = let (ok, w') = op w in (ok, some w')

-- nopWAL is `none`.
abbrev pub or_nop : {W : Type 0} → Wal W → Wal (Option W)
or_nop log = record {
  append = λ rows. lift (log.append rows);
  flush = lift log.flush;
  punctuate = lift log.punctuate;
  remove_oldest = lift log.remove_oldest;
  remove_all = lift log.remove_all;
  refresh = lift log.refresh;
}
