-- ===== src/Varint/Truncated.antt =====
-- A number whose last byte is missing is io.EOF for `ReadUvarint` and `ReadVarint`.
use mathlib.Core.Path.{subst}
use tstorage.Base.{
  ℕ, zero, suc, ◌+◌, ◌/◌, ◌%◌, ◌<◌, ◌≡◌, refl, ap, ◌∙◌, arith, bit_or, Bool-cases, inl, inr, ltb,
  ltb→lt, ltb→ge, none, length, take,
}
use tstorage.Words.{shl64}
use tstorage.Varint.{
  ByteReader, err, eof, put_groups, put_uvarint, put_varint, zigzag, read_groups, read_uvarint,
  read_varint,
}
use tstorage.Varint.RoundTrip.{Serves, Serves-byte, Serves-end, inner_byte, put_last, put_inner}

module _ {S : Type 0} (read : ByteReader S) {t t' : S} (ends : read t ≡ (none, t')) where
  no_byte : (k x shift : ℕ) (s : S) → s ≡ t → read_groups read (suc k) x shift s ≡ (err eof, t')
  unfolding read_groups
  no_byte k x shift s e =
      let gone = ap read e ∙ ends in rw (read_groups, gone) (ap (λ r. (err eof, r.1)) gone)

  read_groups-cut :
      (j w x shift n : ℕ) (s : S)
      → n < length (put_groups j w)
      → Serves read t s (take n (put_groups j w))
      → read_groups read (suc j) x shift s ≡ (err eof, t')
  read_groups-cut j w x shift zero s lt serves = no_byte j x shift s (Serves-end serves)
  read_groups-cut zero w x shift (suc n) s lt serves =
      absurd (unfold put_groups in omega (arith, lt))
  read_groups-cut (suc j) w x shift (suc n) s lt serves = elim (Bool-cases (ltb w 0x80)) [
    | inl e ↦ absurd (omega (arith, ap length (put_last (suc j) w (ltb→lt w 0x80 e)), lt))
    | inr e ↦
        let split = put_inner j w (ltb→ge w 0x80 e) in
        let (s', gives, rest) =
          Serves-byte (subst (λ bytes. Serves read t s (take (suc n) bytes)) split serves) in
        inner_byte read s (suc j) x shift (w % 128) gives (omega arith)
        ∙ read_groups-cut j (w / 128) (bit_or x (shl64 (w % 128) shift)) (shift + 7) n s'
            (omega (arith, lt, ap length split)) rest
  ]

  pub read_uvarint-cut :
      (x n : ℕ) (s : S)
      → n < length (put_uvarint x)
      → Serves read t s (take n (put_uvarint x))
      → read_uvarint read s ≡ (err eof, t')
  unfolding read_uvarint put_uvarint
  read_uvarint-cut x n s lt serves = read_groups-cut 9 x 0 0 n s lt serves

  pub read_varint-cut :
      (x n : ℕ) (s : S)
      → n < length (put_varint x)
      → Serves read t s (take n (put_varint x))
      → read_varint read s ≡ (err eof, t')
  unfolding read_varint put_varint
  read_varint-cut x n s lt serves = rw (read_uvarint-cut (zigzag x) n s lt serves) refl
