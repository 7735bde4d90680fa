-- ===== src/BStream/ReadBits.antt =====
-- `readBits` over two buffers, and `ReadByte`.
use mathlib.Core.Path.{ap₂, subst}
use native.Mathlib.Nat.{
  pow-le-pow_right, mod-eq_of_lt, one-le-pow, div-add-mod', div-lt_iff_lt-mul, mod-lt,
  div-mul-le_self,
}
use tstorage.Base.{ℕ, ◌+◌, ◌-◌, ◌*◌, ◌/◌, ◌%◌, ◌^◌, ◌≤◌, ◌<◌, ◌≡◌, refl, sym, ap, ◌∙◌}
use tstorage.Base.{bit_and, bit_or, false, List, ◌++◌, append_assoc, arith, some}
use tstorage.Base.{
  append_inj, drop, leb, ◌==◌, Bool-cases, ==_iff, ==_false, leb→le, leb→gt, gt→leb, lt→ltb, inl,
  inr,
}
use tstorage.Base.Bitwise.{or_disjoint, and_mask}
use tstorage.Base.Bits.{bits, bytes_bits, length-bits, bits-split, bits-mod, bits_inj, pow-add}
use tstorage.Words.{shl64, mask64, sub8}
use tstorage.BStream.{BReader, read_bits, read_byte}
use tstorage.BStream.{read_loaded, finish_bits}
use tstorage.BStream.Loads.{Remains}
use tstorage.BStream.Reads.{Reads, mask64_lem, after_load_lem, next_value, Remains-next}
use tstorage.BStream.Reads.{read_loaded_near}

-- `w` more bits than the buffer has: the value's high part is in the buffer, its low part in the
-- stream.
module _ (r : BReader) (w v : ℕ) (more : List ℕ) (some_valid : 0 < r.valid) (pos : 0 < w)
    (width : r.valid + w ≤ 64) (lt : v < 2 ^ (r.valid + w))
    (h : Remains r (bits (r.valid + w) v ++ more)) where
  parts :
      (bits r.valid r.buffer ≡ bits r.valid (v / 2 ^ w))
      × (bytes_bits (drop r.stream_offset r.stream) ≡ bits w v ++ more)
  parts = append_inj _ _ _ _ (length-bits r.valid _ ∙ sym (length-bits r.valid _)) (
      h.rest
      ∙ ap (λ t. t ++ more) (bits-split r.valid w v)
      ∙ append_assoc (bits r.valid (v / 2 ^ w)) (bits w v) more)

  high_fits : v / 2 ^ w < 2 ^ r.valid
  high_fits =
      (div-lt_iff_lt-mul {k = 2 ^ w} (one-le-pow w 2 (omega arith))).1
        (omega (arith, lt, pow-add r.valid w))

  high : bit_and r.buffer (mask64 r.valid) ≡ v / 2 ^ w
  high =
      ap (bit_and r.buffer) (mask64_lem r.valid h.width)
      ∙ and_mask r.valid r.buffer
      ∙ bits_inj r.valid r.buffer (v / 2 ^ w) parts.0
      ∙ mod-eq_of_lt high_fits

  emptied : Remains (record r { valid = 0 }) (bits w (v % 2 ^ w) ++ more)
  emptied = record {
    bytes = h.bytes;
    width = omega arith;
    rest = parts.1 ∙ ap (λ t. t ++ more) (sym (bits-mod w v));
  }

  high_shifted : shl64 (bit_and r.buffer (mask64 r.valid)) w ≡ v / 2 ^ w * 2 ^ w
  high_shifted =
      ap (λ x. shl64 x w) high
      ∙ rw (lt→ltb w 64 (omega arith))
          (mod-eq_of_lt (omega (arith, div-mul-le_self v (2 ^ w), lt, whole_power)))
    where
      whole_power : 2 ^ (r.valid + w) ≤ 2 ^ 64
      whole_power = pow-le-pow_right {n = 2} (omega arith) width

  both : bit_or (v / 2 ^ w * 2 ^ w) (v % 2 ^ w) ≡ v
  both =
      or_disjoint w (v / 2 ^ w) (v % 2 ^ w) (mod-lt v {m = 2 ^ w} (one-le-pow w 2 (omega arith)))
      ∙ div-add-mod' v (2 ^ w)

  finish_bits_lem :
      (r' : BReader)
      → w ≤ r'.valid
      → Remains r' (bits w (v % 2 ^ w) ++ more)
      → Reads (finish_bits w (shl64 (bit_and r.buffer (mask64 r.valid)) w)) r' v more
  unfolding finish_bits
  finish_bits_lem r' ready h' = (
    record r' { valid = sub8 r'.valid w },
    ap (λ x. (some x, record r' { valid = sub8 r'.valid w })) value,
    rw narrower (Remains-next r' w (v % 2 ^ w) more ready h'),
  )
    where
      narrower : sub8 r'.valid w ≡ r'.valid - w
      narrower = omega (arith, h'.width)

      low : bit_and (r'.buffer / 2 ^ sub8 r'.valid w) (mask64 w) ≡ v % 2 ^ w
      low =
          ap (λ k. bit_and (r'.buffer / 2 ^ k) (mask64 w)) narrower
          ∙ next_value r' w (v % 2 ^ w) more ready h'
              (mod-lt v {m = 2 ^ w} (one-le-pow w 2 (omega arith)))

      value :
          bit_or
            (shl64 (bit_and r.buffer (mask64 r.valid)) w)
            (bit_and (r'.buffer / 2 ^ sub8 r'.valid w) (mask64 w))
          ≡ v
      value = ap₂ bit_or high_shifted low ∙ both

  read_loaded_far : Reads (read_loaded (r.valid + w)) r v more
  unfolding read_loaded
  read_loaded_far =
      after_load_lem w (v % 2 ^ w) more (λ _. read_loaded (r.valid + w) r)
        (finish_bits w (shl64 (bit_and r.buffer (mask64 r.valid)) w)) {r = record r { valid = 0 }}
        pos (omega arith) emptied refl (rw (gt→leb (r.valid + w) r.valid (omega arith), rest_width))
        finish_bits_lem
    where
      rest_width : r.valid + w - r.valid ≡ w
      rest_width = omega arith

-- Where the next bits that remain in a reader write an n-bit number, 0 < n ≤ 64, readBits returns
-- that number, whether the bits are in the buffer, in the stream, or in both, and leaves the bits
-- after them.
pub read_bits_lem :
    (r : BReader) (n v : ℕ) (more : List ℕ)
    → 0 < n
    → n ≤ 64
    → v < 2 ^ n
    → Remains r (bits n v ++ more)
    → Reads (read_bits n) r v more
unfolding read_bits
read_bits_lem r n v more pos le lt h = elim (Bool-cases (r.valid == 0)) [
  | inl e ↦
      after_load_lem n v more (read_bits n) (read_loaded n) pos le h ((==_iff r.valid 0).0 e) (rw e)
        (λ r' ready h'. read_loaded_near r' n v more ready h' lt)
  | inr e ↦ rw e (loaded e)
]
  where
    loaded : (r.valid == 0) ≡ false → Reads (read_loaded n) r v more
    loaded e = elim (Bool-cases (leb n r.valid)) [
      | inl near ↦ read_loaded_near r n v more (leb→le n r.valid near) h lt
      | inr far ↦
          let w = n - r.valid in
          let whole : r.valid + w ≡ n = omega (arith, leb→gt n r.valid far) in
          subst (λ k. Reads (read_loaded k) r v more) whole
            (read_loaded_far r w v more (omega (arith, ==_false r.valid 0 e))
              (omega (arith, leb→gt n r.valid far)) (omega arith) (rw whole lt)
              (subst (λ k. Remains r (bits k v ++ more)) (sym whole) h))
    ]

-- Where the eight bits of a byte come next in a reader, ReadByte returns the byte and leaves the
-- bits after it.
pub read_byte_lem :
    (r : BReader) (b : ℕ) (more : List ℕ)
    → b < 256
    → Remains r (bits 8 b ++ more)
    → Reads read_byte r b more
unfolding read_byte
read_byte_lem r b more lt h =
    let (r', e, h') = read_bits_lem r 8 b more (omega arith) (omega arith) lt h in
    (r', rw e (ap (λ x. (some x, r')) (mod-eq_of_lt lt)), h')
