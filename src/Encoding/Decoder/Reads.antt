-- ===== src/Encoding/Decoder/Reads.antt =====
-- The parts of `decodePoint`, on the bits that the encoder writes.
use tstorage.Base.{ℕ, zero, suc, ◌+◌, ◌*◌, ◌%◌, ◌^◌, ◌≤◌, ◌<◌, ◌≡◌, ap, ◌∙◌}
use tstorage.Base.{bit_or, Bool, true, false, List, [], ◌∷◌, ◌++◌, arith}
use tstorage.Base.{◌⊎◌, none, some, inl, inr, All}
use tstorage.Base.Bits.{bits, bytes_bits}
use tstorage.Words.{IsByte}
use tstorage.BStream.{BReader, Read, read_byte}
use tstorage.BStream.Loads.{Remains}
use tstorage.BStream.Reads.{Reads, read_bit_lem, read_bit_fast_cases, read_bits_fast_cases}
use tstorage.BStream.ReadBits.{read_bits_lem, read_byte_lem}
use tstorage.BStream.Writes.{digit}
use tstorage.Varint.RoundTrip.{Serves, done, next}
use tstorage.Encoding.Decoder.{Decoder, Decode, ok, ◌>>=◌, from_stream}
use tstorage.Encoding.Decoder.{retry, next_bit, next_bits, read_delimiter}

-- A step of a `do` block that succeeds.
pub bind_lem :
    {A B : Type 0} (m : Decode A) (f : A → Decode B) {d d' : Decoder} {a : A}
    → m d ≡ (ok a, d')
    → (m >>= f) d ≡ f a d'
unfolding ◌>>=◌
bind_lem m f {d} e = rw e

pub from_stream_lem :
    {A : Type 0} (m : Read A) (d : Decoder) {a : A} {br : BReader}
    → m d.br ≡ (some a, br)
    → from_stream m d ≡ (ok a, record d { br = br })
unfolding from_stream
from_stream_lem m d e = rw e

retry_lem :
    {A : Type 0} (fast slow : Read A) (r : BReader) {a : A} (more : List ℕ)
    → Reads fast r a more ⊎ (fast r ≡ (none, r))
    → Reads slow r a more
    → Reads (retry fast slow) r a more
unfolding retry
retry_lem fast slow r more (inl (r', e, h)) s = (r', ground (arith, e), h)
retry_lem fast slow r more (inr e) (r', e', h) = (r', ground (arith, e, e'), h)

pub next_bit_lem :
    (r : BReader) (b : Bool) (more : List ℕ)
    → Remains r (bits 1 (digit b) ++ more)
    → Reads next_bit r b more
unfolding next_bit
next_bit_lem r b more h =
    retry_lem _ _ r more (read_bit_fast_cases r b more h) (read_bit_lem r b more h)

pub next_bits_lem :
    (r : BReader) (n v : ℕ) (more : List ℕ)
    → 0 < n
    → n ≤ 64
    → v < 2 ^ n
    → Remains r (bits n v ++ more)
    → Reads (next_bits n) r v more
unfolding next_bits
next_bits_lem r n v more pos le lt h =
    retry_lem _ _ r more (read_bits_fast_cases r n v more lt h)
      (read_bits_lem r n v more pos le lt h)

-- A reader serves the bytes whose bits come next.
pub serves_lem :
    (bytes : List ℕ) (r : BReader) (more : List ℕ)
    → All IsByte bytes
    → Remains r (bytes_bits bytes ++ more)
    → (r' : BReader) × Serves read_byte r' r bytes × Remains r' more
serves_lem [] r more all h = (r, done, h)
serves_lem (b ∷ bs) r more (lt, all) h =
    let (r', e, h') = read_byte_lem r b (bytes_bits bs ++ more) lt h in
    let (r'', serves, h'') = serves_lem bs r' more all h' in (r'', next r r' b bs e serves, h'')

-- The delimiter: ones, and a zero unless there are four of them.
abbrev pub shifted : ℕ → ℕ
shifted delimiter = delimiter * 2 % 256

delimiter_one :
    (k delimiter : ℕ) (r : BReader) (more : List ℕ)
    → Remains r (1 ∷ more)
    → (r' : BReader) × (read_delimiter (suc k) delimiter r
        ≡ read_delimiter k (bit_or (shifted delimiter) 1) r')
      × Remains r' more
unfolding read_delimiter
delimiter_one k delimiter r more h =
    let (r', e, h') = next_bit_lem r true more h in (r', ground (arith, e), h')

pub delimiter_zero :
    (k delimiter : ℕ) (r : BReader) (more : List ℕ)
    → Remains r (0 ∷ more)
    → Reads (read_delimiter (suc k) delimiter) r (shifted delimiter) more
unfolding read_delimiter
delimiter_zero k delimiter r more h =
    let (r', e, h') = next_bit_lem r false more h in (r', ground (arith, e), h')

abbrev pub ones : ℕ → List ℕ → List ℕ
ones zero more = more
ones (suc n) more = 1 ∷ ones n more

abbrev pub after_ones : ℕ → ℕ → ℕ
after_ones zero delimiter = delimiter
after_ones (suc n) delimiter = after_ones n (bit_or (shifted delimiter) 1)

pub delimiter_ones :
    (n k delimiter : ℕ) (r : BReader) (more : List ℕ)
    → Remains r (ones n more)
    → (r' : BReader) × (read_delimiter (n + k) delimiter r
        ≡ read_delimiter k (after_ones n delimiter) r')
      × Remains r' more
delimiter_ones zero k delimiter r more h =
    (r, ap (λ j. read_delimiter j delimiter r) {x = zero + k} {y = k} (omega arith), h)
delimiter_ones (suc n) k delimiter r more h =
    let (r', e, h') = delimiter_one (n + k) delimiter r (ones n more) h in
    let (r'', e', h'') = delimiter_ones n k (bit_or (shifted delimiter) 1) r' more h' in
    (
      r'',
      ap (λ j. read_delimiter j delimiter r) {x = suc n + k} {y = suc (n + k)} (omega arith)
          ∙ e
          ∙ e',
      h'',
    )
