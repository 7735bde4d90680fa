-- ===== src/Varint/Sizes.antt =====
-- How many bytes a number takes.
use tstorage.Base.{ℕ, zero, suc, ◌/◌, ◌≤◌, ltb, Bool-cases, inl, inr, List, length, arith}
use tstorage.Varint.{put_groups, put_uvarint, put_varint, zigzag}

-- A list with `lo` elements at least and `hi` at most.
abbrev pub Takes : ℕ → ℕ → List ℕ → Type 0
Takes lo hi xs = (lo ≤ length xs) × (length xs ≤ hi)

put_groups-Takes : (k x : ℕ) → Takes 1 (suc k) (put_groups k x)
unfolding put_groups
put_groups-Takes zero x = omega arith
put_groups-Takes (suc k) x = elim (Bool-cases (ltb x 0x80)) [
  | inl e ↦ rw e (omega arith)
  | inr e ↦ rw e (omega (arith, put_groups-Takes k (x / 128)))
]

pub put_uvarint-Takes : (x : ℕ) → Takes 1 10 (put_uvarint x)
unfolding put_uvarint
put_uvarint-Takes x = put_groups-Takes 9 x

pub put_varint-Takes : (x : ℕ) → Takes 1 10 (put_varint x)
unfolding put_varint
put_varint-Takes x = put_uvarint-Takes (zigzag x)
