-- ===== src/Varint/Consumes.antt =====
-- Reading a number never gives bytes back, and the number fits into 64 bits.
use native.Mathlib.Nat.{pow-suc}
use tstorage.Base.{
  ap₂, if◌then◌else◌, ℕ, zero, suc, ◌+◌, ◌/◌, ◌%◌, ◌^◌, ◌≤◌, ◌<◌, ◌≡◌, ◌==◌, ◌&&◌, ltb, Bool-cases,
  inl, inr, Option, none, some, bit_and, bit_or, arith,
}
use tstorage.Base.Bitwise.{or_step, or-zero}
use tstorage.Words.{IsU64, shl64}
use tstorage.Varint.{
  ByteReader, Result, ok, err, read_groups, read_uvarint, read_varint, unzigzag, map_result, eof,
  overflow,
}

or-lt : (k a b : ℕ) → a < 2 ^ k → b < 2 ^ k → bit_or a b < 2 ^ k
or-lt zero a b h h' =
    let ea : a ≡ 0 = omega (arith, h) in
    let eb : b ≡ 0 = omega (arith, h') in omega (arith, ap₂ bit_or ea eb, or-zero 0)
or-lt (suc k) a b h h' = omega (
  arith,
  or_step a b,
  pow-suc 2 k,
  or-lt k (a / 2) (b / 2) (omega (arith, h, pow-suc 2 k)) (omega (arith, h', pow-suc 2 k)),
)

shl64-IsU64 : (x s : ℕ) → IsU64 (shl64 x s)
shl64-IsU64 x s = elim (Bool-cases (ltb s 64)) [
  | inl e ↦ rw e (omega arith)
  | inr e ↦ rw e (omega arith)
]

module _ {S : Type 0} (read : ByteReader S) (size : S → ℕ)
    (shrinks : (st : S) → size (read st).1 ≤ size st) where
  -- The reader's state does not grow beyond `n`, and a number is a uint64.
  abbrev pub Fits : ℕ → Result ℕ × S → Type 0
  Fits n (err e, st) = size st ≤ n
  Fits n (ok x, st) = (size st ≤ n) × IsU64 x

  pub Fits-le : (m n : ℕ) (r : Result ℕ × S) → m ≤ n → Fits m r → Fits n r
  Fits-le m n (err e, st) le h = omega (arith, le, h)
  Fits-le m n (ok x, st) le (h, h') = (omega (arith, le, h), h')

  read_groups-Fits : (k x s : ℕ) (st : S) → IsU64 x → Fits (size st) (read_groups read k x s st)
  unfolding read_groups
  read_groups-Fits zero x s st h = omega arith
  read_groups-Fits (suc k) x s st h =
      step (λ x' s' st' h'. read_groups-Fits k x' s' st' h') (read st).0 (read st).1 (shrinks st)
    where
      step :
          ((x' s' : ℕ) (st' : S) → IsU64 x' → Fits (size st') (read_groups read k x' s' st'))
          → (o : Option ℕ) (st' : S) → size st' ≤ size st
          → Fits (size st) (elim o [
            | none ↦ (err eof, st')
            | some b ↦
                let more = read_groups read k (bit_or x (shl64 (bit_and b 0x7f) s)) (s + 7) st' in
                if ltb b 0x80
                then (if k == 0 && ltb 1 b then err overflow else ok (bit_or x (shl64 b s)), st')
                else more
          ])
      step rest none st' le = le
      step rest (some b) st' le = elim (Bool-cases (ltb b 0x80)) [
        | inl last ↦ rw last (elim (Bool-cases (k == 0 && ltb 1 b)) [
          | inl long ↦ rw long le
          | inr fits ↦ rw fits (le, or-lt 64 x (shl64 b s) h (shl64-IsU64 b s))
        ])
        | inr more ↦ rw more (
            Fits-le (size st') (size st) _ le (
              rest (bit_or x (shl64 (bit_and b 0x7f) s)) (s + 7) st'
                (or-lt 64 x _ h (shl64-IsU64 (bit_and b 0x7f) s))))
      ]

  pub read_uvarint-Fits : (st : S) → Fits (size st) (read_uvarint read st)
  unfolding read_uvarint
  read_uvarint-Fits st = read_groups-Fits 10 0 0 st (omega arith)

  unzigzag-IsU64 : (x : ℕ) → IsU64 x → IsU64 (unzigzag x)
  unfolding unzigzag
  unzigzag-IsU64 x h = elim (Bool-cases (x % 2 == 0)) [
    | inl e ↦ rw e (omega (arith, h))
    | inr e ↦ rw e (omega (arith, h))
  ]

  map_result-Fits : (n : ℕ) (r : Result ℕ × S) → Fits n r → Fits n (map_result unzigzag r.0, r.1)
  map_result-Fits n (err e, st) h = h
  map_result-Fits n (ok x, st) (h, h') = (h, unzigzag-IsU64 x h')

  pub read_varint-Fits : (st : S) → Fits (size st) (read_varint read st)
  unfolding read_varint
  read_varint-Fits st = map_result-Fits (size st) (read_uvarint read st) (read_uvarint-Fits st)
