-- ===== src/BStream/WriteBits.antt =====
-- Bytes and words: `writeByte` and `writeBits` append their bits, highest first.
use mathlib.Core.Path.{ap₂}
use native.Mathlib.Nat.{div-add-mod', mod-lt, mod-eq_of_lt, one-le-pow}
use native.Mathlib.Nat.{div-lt_iff_lt-mul, mul-add-mod_self_right}
use tstorage.Base.{ℕ, ◌+◌, ◌*◌, ◌/◌, ◌%◌, ◌^◌, ◌<◌, ◌≡◌, sym, ap, ◌∙◌}
use tstorage.Base.{bit_or, List, [], ◌∷◌, ◌++◌, append-nil, append_assoc, arith}
use tstorage.Base.{modify_last, modify_last-append, All-append}
use tstorage.Base.Bitwise.{or_disjoint}
use tstorage.Base.Bits.{
  bits, bytes_bits, bytes_bits-append, bits-join, bits-split, bits-mod, pow-add,
}
use tstorage.Words.{IsByte, sub8}
use tstorage.BStream.{BStream, write_byte}
use tstorage.BStream.Writes.{Holds, opened, IsOpen, open_byte-IsOpen}

-- A byte over a last byte with `c` bits to spare and `u` used: its two parts.
module _ (byt u c x : ℕ) (lt : byt < 256) (e : u + c ≡ 8) where
  powers : 2 ^ u * 2 ^ c ≡ 256
  powers = sym (pow-add u c) ∙ ap (λ n. 2 ^ n) e

  high_part : byt / 2 ^ u < 2 ^ c
  high_part =
      (div-lt_iff_lt-mul {k = 2 ^ u} (one-le-pow u 2 (omega arith))).1 (omega (arith, powers))

  low_part : byt * 2 ^ c % 256 ≡ byt % 2 ^ u * 2 ^ c
  low_part =
      ap (λ (t : ℕ). t % 256) regroup
      ∙ mul-add-mod_self_right (byt / 2 ^ u) 256 (byt % 2 ^ u * 2 ^ c)
      ∙ mod-eq_of_lt (grind (arith, powers, mod-lt byt {m = 2 ^ u} (one-le-pow u 2 (omega arith))))
    where
      regroup : byt * 2 ^ c ≡ byt / 2 ^ u * 256 + byt % 2 ^ u * 2 ^ c
      regroup = omega (
        arith,
        ap (λ (t : ℕ). t * 2 ^ c) (div-add-mod' byt (2 ^ u)),
        ap (λ (t : ℕ). byt / 2 ^ u * t) powers,
      )

  filled : bit_or (x * 2 ^ c) (byt / 2 ^ u) ≡ x * 2 ^ c + byt / 2 ^ u
  filled = or_disjoint c x (byt / 2 ^ u) high_part

  byte_bits : bits u x ++ bits 8 byt ≡ bits 8 (x * 2 ^ c + byt / 2 ^ u) ++ bits u (byt % 2 ^ u)
  byte_bits =
      ap (λ t. bits u x ++ t)
        (ap (λ n. bits n byt) {x = 8} {y = c + u} (omega (arith, e)) ∙ bits-split c u byt)
      ∙ sym (append_assoc (bits u x) (bits c (byt / 2 ^ u)) (bits u byt))
      ∙ ap₂ ◌++◌
          (sym (bits-join u c x (byt / 2 ^ u) high_part)
            ∙ ap (λ n. bits n (x * 2 ^ c + byt / 2 ^ u)) e)
          (sym (bits-mod u byt))

module _ {o : BStream} {out : List ℕ} (byt : ℕ) (lt : byt < 256) (h : IsOpen o out) where
  filled_byte : ℕ
  filled_byte = h.last * 2 ^ o.count + byt / 2 ^ h.used

  filled_byte-lt : filled_byte < 256
  unfolding filled_byte
  filled_byte-lt = grind (
    arith,
    high_part byt h.used o.count h.last lt h.widths,
    powers byt h.used o.count h.last lt h.widths,
    h.fits,
  )

  unused_width : sub8 8 o.count ≡ h.used
  unused_width = omega (arith, h.widths)

  with_byte-stream :
      modify_last (λ y. bit_or y (byt / 2 ^ sub8 8 o.count)) o.stream
        ++ byt * 2 ^ o.count % 256 ∷ []
      ≡ (h.front ++ filled_byte ∷ []) ++ byt % 2 ^ h.used * 2 ^ o.count ∷ []
  unfolding filled_byte
  with_byte-stream =
      ap₂ (λ s y. s ++ y ∷ [])
        (ap₂ (λ k s. modify_last (λ y. bit_or y (byt / 2 ^ k)) s) unused_width h.shape
          ∙ modify_last-append _ h.front (h.last * 2 ^ o.count)
          ∙ ap (λ y. h.front ++ y ∷ []) (filled byt h.used o.count h.last lt h.widths))
        (low_part byt h.used o.count h.last lt h.widths)

  with_byte-IsOpen :
      IsOpen
        (record o {
          stream =
              modify_last (λ y. bit_or y (byt / 2 ^ sub8 8 o.count)) o.stream
              ++ byt * 2 ^ o.count % 256 ∷ [];
        })
        (out ++ bits 8 byt)
  unfolding filled_byte
  with_byte-IsOpen = record {
    front = h.front ++ filled_byte ∷ [];
    last = byt % 2 ^ h.used;
    used = h.used;
    widths = h.widths;
    spare = h.spare;
    shape = with_byte-stream;
    fits = mod-lt byt {m = 2 ^ h.used} (one-le-pow h.used 2 (omega arith));
    bytes = All-append IsByte h.front (filled_byte ∷ []) h.bytes (filled_byte-lt, tt);
    holds =
        ap (λ t. t ++ bits 8 byt) h.holds
        ∙ append_assoc (bytes_bits h.front) (bits h.used h.last) (bits 8 byt)
        ∙ ap (λ t. bytes_bits h.front ++ t) (byte_bits byt h.used o.count h.last lt h.widths)
        ∙ sym (
            append_assoc (bytes_bits h.front) (bits 8 filled_byte) (bits h.used (byt % 2 ^ h.used)))
        ∙ ap (λ t. t ++ bits h.used (byt % 2 ^ h.used))
            (ap (λ t. bytes_bits h.front ++ t) (sym (append-nil (bits 8 filled_byte)))
              ∙ sym (bytes_bits-append h.front (filled_byte ∷ [])));
  }

-- writeByte appends the eight bits of its byte to the bits in the stream, wherever in a byte the
-- stream ends.
pub write_byte-Holds :
    {b : BStream} {out : List ℕ} (byt : ℕ)
    → IsByte byt
    → Holds b out
    → Holds (write_byte b byt) (out ++ bits 8 byt)
unfolding write_byte
write_byte-Holds byt lt h = opened (with_byte-IsOpen byt lt (open_byte-IsOpen h))
