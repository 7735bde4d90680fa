-- ===== src/Rows.antt =====
-- The data that the storage takes in and gives out: `DataPoint` and `Row` of storage.go, `Label` of
-- label.go. A string is the list of its bytes. Timestamps (int64) and values (float64) are their
-- 64-bit patterns (Words).
use tstorage.Base.{ℕ, List}
use tstorage.Words.{IsU64}

pub record DataPoint : Type 0 where
  pub value : ℕ
  pub timestamp : ℕ

pub record Label : Type 0 where
  pub name : List ℕ
  pub value : List ℕ

pub record Row : Type 0 where
  pub metric : List ℕ
  pub labels : List Label
  pub point : DataPoint

abbrev pub IsPoint : DataPoint → Type 0
IsPoint p = IsU64 p.value × IsU64 p.timestamp
