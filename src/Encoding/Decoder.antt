-- ===== src/Encoding/Decoder.antt =====
-- encoding.go: the decoder of the Gorilla compression.
pub mod Reads
pub mod Values
pub mod Steps
pub mod Later
pub mod RoundTrip
use tstorage.Base.{
  ℕ, zero, suc, ◌+◌, ◌-◌, ◌*◌, ◌%◌, ◌^◌, bit_or, bit_xor, Bool, List, Option, none, some,
}
use tstorage.Base.{ltb, ◌==◌, if◌then◌else◌}
use tstorage.Words.{add64, sub64, sub8, shl64}
use tstorage.Rows.{DataPoint}
use tstorage.BStream.{
  BReader, Read, new_breader, read_bit_fast, read_bit, read_bits_fast, read_bits,
}
use tstorage.BStream.{read_byte}
use tstorage.Varint
use tstorage.Varint.{read_uvarint, read_varint}

pub record Decoder : Type 0 where
  pub br : BReader
  pub num_read : ℕ
  pub t : ℕ
  pub t_delta : ℕ
  pub v : ℕ
  pub leading : ℕ
  pub trailing : ℕ

abbrev pub new_decoder : List ℕ → Decoder
new_decoder bytes = record {
  br = new_breader bytes;
  num_read = 0;
  t = 0;
  t_delta = 0;
  v = 0;
  leading = 0;
  trailing = 0;
}

pub data DecodeError : Type 0 where
  eof overflow : DecodeError
  unknown_delimiter : ℕ → DecodeError

pub data Outcome (A : Type 0) : Type 0 where
  ok : A → Outcome A
  fail : DecodeError → Outcome A

-- What was read before an error stays read.
abbrev pub Decode : Type 0 → Type 0
Decode A = Decoder → Outcome A × Decoder

abbrev continue : {A B : Type 0} → Outcome A → (A → Decode B) → Decode B
continue (ok a) f d = f a d
continue (fail e) f d = (fail e, d)

infixl 5 ◌>>=◌ ◌>>◌
pub ◌>>=◌ : {A B : Type 0} → Decode A → (A → Decode B) → Decode B
◌>>=◌ m f d = let (o, d') = m d in continue o f d'

abbrev pub ◌>>◌ : {A B : Type 0} → Decode A → Decode B → Decode B
m >> k = m >>= λ _. k

unfoldable pub pure : {A : Type 0} → A → Decode A
pure a d = (ok a, d)

pub failed : {A : Type 0} → DecodeError → Decode A
failed e d = (fail e, d)

pub gets : {A : Type 0} → (Decoder → A) → Decode A
gets f d = (ok (f d), d)

pub modify : (Decoder → Decoder) → Decode (Unit {0})
modify f d = (ok tt, f d)

abbrev of_option : {A : Type 0} → Option A → Outcome A
of_option none = fail eof
of_option (some a) = ok a

abbrev of_varint : Varint.Result ℕ → Outcome ℕ
of_varint (Varint.ok x) = ok x
of_varint (Varint.err Varint.eof) = fail eof
of_varint (Varint.err Varint.overflow) = fail overflow

pub from_stream : {A : Type 0} → Read A → Decode A
from_stream m d = let (o, br) = m d.br in (of_option o, record d { br = br })

pub from_varint : (BReader → Varint.Result ℕ × BReader) → Decode ℕ
from_varint m d = let (r, br) = m d.br in (of_varint r, record d { br = br })

-- A quick read, and the full one where that ends with io.EOF.
pub retry : {A : Type 0} → Read A → Read A → Read A
retry fast slow r = let (o, r') = fast r in elim o [ none ↦ slow r' | some a ↦ (some a, r') ]

pub next_bit : Read Bool
next_bit = retry read_bit_fast read_bit

pub next_bits : ℕ → Read ℕ
next_bits n = retry (read_bits_fast n) (read_bits n)

-- At most `k` more bits of the delimiter, which ends after a zero.
pub read_delimiter : ℕ → ℕ → Read ℕ
read_delimiter zero delimiter r = (some delimiter, r)
read_delimiter (suc k) delimiter r =
    let (o, r') = next_bit r in
    let shifted = delimiter * 2 % 256 in
    elim o [
      | none ↦ (none, r')
      | some b ↦
          let more = read_delimiter k (bit_or shifted 1) r' in
          if b then more else (some shifted, r')
    ]

-- Sign extension of `sz` bits, where 2 ^ (sz - 1) itself stands for a positive number.
abbrev pub extend : ℕ → ℕ → ℕ
extend sz bits = if ltb (2 ^ (sz - 1)) bits then sub64 bits (2 ^ sz) else bits

pub read_dod : ℕ → Decode ℕ
read_dod delimiter =
    if delimiter == 0x00
    then pure 0
    else if delimiter == 0x02
    then (do bits ← from_stream (next_bits 7); pure (extend 7 bits))
    else if delimiter == 0x06
    then (do bits ← from_stream (next_bits 9); pure (extend 9 bits))
    else if delimiter == 0x0e
    then (do bits ← from_stream (next_bits 12); pure (extend 12 bits))
    else if delimiter == 0x0f
    then from_stream (read_bits 64)
    else failed (unknown_delimiter delimiter)

-- The delimiter's loop and the switch on it.
pub next_dod : Decode ℕ
next_dod = do delimiter ← from_stream (read_delimiter 4 0); read_dod delimiter

pub read_window : Decode (Unit {0})
read_window = do
  leading ← from_stream (next_bits 5)
  modify (λ d. record d { leading = leading % 256 })
  bits ← from_stream (next_bits 6)
  let mbits = if bits % 256 == 0 then 64 else bits % 256
  modify (λ d. record d { trailing = sub8 (sub8 64 d.leading) mbits })

pub read_significant : Decode (Unit {0})
read_significant = do
  mbits ← gets (λ d. sub8 (sub8 64 d.leading) d.trailing)
  bits ← from_stream (next_bits mbits)
  modify (λ d. record d { v = bit_xor d.v (shl64 bits d.trailing) })

pub read_changed : Decode (Unit {0})
read_changed = do
  new_window ← from_stream next_bit
  if new_window then read_window else pure tt
  read_significant

unfoldable pub read_value : Decode (Unit {0})
read_value = do changed ← from_stream next_bit; if changed then read_changed else pure tt

pub decode_first : Decode DataPoint
decode_first = do
  t ← from_varint (read_varint read_byte)
  v ← from_stream (read_bits 64)
  modify (λ d. record d { t = t; v = v; num_read = d.num_read + 1 })
  gets (λ d. record { value = d.v; timestamp = d.t })

pub decode_second : Decode DataPoint
decode_second = do
  t_delta ← from_varint (read_uvarint read_byte)
  modify (λ d. record d { t_delta = t_delta; t = add64 d.t t_delta })
  read_value
  modify (λ d. record d { num_read = d.num_read + 1 })
  gets (λ d. record { value = d.v; timestamp = d.t })

pub decode_later : Decode DataPoint
decode_later = do
  dod ← next_dod
  modify (λ d. record d { t_delta = add64 d.t_delta dod; t = add64 d.t (add64 d.t_delta dod) })
  read_value
  gets (λ d. record { value = d.v; timestamp = d.t })

unfoldable pub decode_point : Decode DataPoint
decode_point d =
    if d.num_read == 0
    then decode_first d
    else if d.num_read == 1
    then decode_second d
    else decode_later d
