-- ===== src/Varint.antt =====
-- The variable-length integers of Go's encoding/binary, which the Gorilla encoder (encoding.go) and
-- the write-ahead log (disk_wal.go) call: PutUvarint, PutVarint, ReadUvarint and ReadVarint.
pub mod RoundTrip
pub mod Truncated
pub mod Sizes
pub mod Consumes
use tstorage.Base.{ℕ, zero, suc, ◌+◌, ◌-◌, ◌*◌, ◌/◌, ◌%◌, ◌^◌, bit_and, bit_or, List, [], ◌∷◌}
use tstorage.Base.{Option, none, some, ◌&&◌, ltb, ◌==◌, if◌then◌else◌}
use tstorage.Words.{shl64}

pub data Error : Type 0 where
  eof overflow : Error

pub data Result (A : Type 0) : Type 0 where
  ok : A → Result A
  err : Error → Result A

-- An io.ByteReader: a state that gives out bytes, `none` for io.EOF.
abbrev pub ByteReader : Type 0 → Type 0
ByteReader S = S → Option ℕ × S

-- A uint64 takes ten bytes at most, so that nine rounds before the last byte are enough.
pub put_groups : ℕ → ℕ → List ℕ
put_groups zero x = x % 256 ∷ []
put_groups (suc k) x =
    let rest = put_groups k (x / 128) in
    if ltb x 0x80 then x % 256 ∷ [] else bit_or (x % 256) 0x80 ∷ rest

unfoldable pub put_uvarint : ℕ → List ℕ
unfolding put_groups
put_uvarint x = put_groups 9 x

-- The sign moves to the lowest bit: `ux := uint64(x) << 1`, complemented for a negative `x`.
unfoldable pub zigzag : ℕ → ℕ
zigzag x = if ltb x (2 ^ 63) then shl64 x 1 else 2 ^ 64 - 1 - shl64 x 1

unfoldable pub put_varint : ℕ → List ℕ
unfolding put_uvarint zigzag
put_varint x = put_uvarint (zigzag x)

module _ {S : Type 0} (read : ByteReader S) where
  -- `k` rounds of ten are left; `x` and `s` are the variables of ReadUvarint.
  pub read_groups : ℕ → ℕ → ℕ → S → Result ℕ × S
  read_groups zero x s st = (err overflow, st)
  read_groups (suc k) x s st =
      let (o, st') = read st in
      elim o [
        | none ↦ (err eof, st')
        | some b ↦
            let more = read_groups k (bit_or x (shl64 (bit_and b 0x7f) s)) (s + 7) st' in
            if ltb b 0x80
            then (if k == 0 && ltb 1 b then err overflow else ok (bit_or x (shl64 b s)), st')
            else more
      ]

  unfoldable pub read_uvarint : S → Result ℕ × S
  unfolding read_groups
  read_uvarint st = read_groups 10 0 0 st

unfoldable pub unzigzag : ℕ → ℕ
unzigzag ux = if ux % 2 == 0 then ux / 2 else 2 ^ 64 - 1 - ux / 2

abbrev pub map_result : (ℕ → ℕ) → Result ℕ → Result ℕ
map_result f (ok x) = ok (f x)
map_result f (err e) = err e

module _ {S : Type 0} (read : ByteReader S) where
  unfoldable pub read_varint : S → Result ℕ × S
  unfolding unzigzag
  read_varint st = let (r, st') = read_uvarint read st in (map_result unzigzag r, st')
