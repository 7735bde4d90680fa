-- ===== src/BStream.antt =====
-- bstream.go: a stream of bits packed into bytes, its writer and its reader.
-- A byte slice is a list of numbers. `mod` lines name the modules with the proofs.
pub mod Writes
pub mod WriteBits
pub mod WriteWords
pub mod Loads
pub mod Reads
pub mod ReadBits
use tstorage.Base.{ℕ, zero, suc, ◌+◌, ◌-◌, ◌*◌, ◌/◌, ◌%◌, ◌^◌, bit_and, bit_or, Bool, true, false}
use tstorage.Base.{List, [], ◌∷◌, ◌++◌, Option, none, some, ltb, leb, ◌==◌, if◌then◌else◌, not}
use tstorage.Base.{length, drop, modify_last}
use tstorage.Words.{shl64, sub8, mask64}

-- `count` is the number of bits of the last byte that are still free.
pub record BStream : Type 0 where
  pub stream : List ℕ
  pub count : ℕ

abbrev pub new_stream : BStream
new_stream = record { stream = []; count = 0 }

unfoldable pub reset : BStream → BStream
reset b = record b { stream = []; count = 0 }

-- The opening lines that `writeBit` and `writeByte` share: a full last byte is followed by a new one.
pub open_byte : BStream → BStream
open_byte b = if b.count == 0 then record b { stream = b.stream ++ 0 ∷ []; count = 8 } else b

set_bit : ℕ → Bool → List ℕ → List ℕ
set_bit shift true s = modify_last (λ x. bit_or x (2 ^ shift % 256)) s
set_bit shift false s = s

unfoldable pub write_bit : BStream → Bool → BStream
unfolding open_byte set_bit
write_bit b bit =
    let o = open_byte b in
    record o { stream = set_bit (sub8 o.count 1) bit o.stream; count = sub8 o.count 1 }

unfoldable pub write_byte : BStream → ℕ → BStream
unfolding open_byte
write_byte b byt =
    let o = open_byte b in
    record o {
      stream =
          modify_last (λ x. bit_or x (byt / 2 ^ sub8 8 o.count)) o.stream
          ++ byt * 2 ^ o.count % 256 ∷ [];
    }

-- The two loops of `writeBits`, by the rounds that are left.
pub write_whole_bytes : ℕ → ℕ → BStream → ℕ × BStream
write_whole_bytes zero u b = (u, b)
write_whole_bytes (suc k) u b =
    write_whole_bytes k (u * 2 ^ 8 % 2 ^ 64) (write_byte b (u / 2 ^ 56 % 256))

pub write_single_bits : ℕ → ℕ → BStream → BStream
write_single_bits zero u b = b
write_single_bits (suc k) u b = write_single_bits k (u * 2 % 2 ^ 64) (write_bit b (u / 2 ^ 63 == 1))

unfoldable pub write_bits : BStream → ℕ → ℕ → BStream
unfolding write_whole_bytes write_single_bits write_bit write_byte
write_bits b u nbits =
    let (u', b') = write_whole_bytes (nbits / 8) (shl64 u ((64 + 2 ^ 64 - nbits) % 2 ^ 64)) b in
    write_single_bits (nbits % 8) u' b'

pub record BReader : Type 0 where
  pub stream : List ℕ
  pub stream_offset : ℕ
  pub buffer : ℕ
  pub valid : ℕ

abbrev pub new_breader : List ℕ → BReader
new_breader b = record { stream = b; stream_offset = 0; buffer = 0; valid = 0 }

-- binary.BigEndian.Uint64 on the first eight bytes.
pub big_endian : ℕ → List ℕ → ℕ → ℕ
big_endian zero bytes acc = acc
big_endian (suc k) [] acc = acc
big_endian (suc k) (b ∷ bs) acc = big_endian k bs (acc * 256 + b)

-- The loop over the last bytes: `k` rounds are left, and `bytes` is what the loop has not reached.
pub fill_buffer : ℕ → List ℕ → ℕ → ℕ
fill_buffer zero bytes buffer = buffer
fill_buffer (suc k) [] buffer = buffer
fill_buffer (suc k) (b ∷ bs) buffer = fill_buffer k bs (bit_or buffer (b * 2 ^ (8 * k) % 2 ^ 64))

-- The bytes to load near the end of the stream.
pub tail_bytes : BReader → ℕ → ℕ
tail_bytes r nbits =
    let nbytes = nbits / 8 + 1 in
    if ltb (length r.stream) (r.stream_offset + nbytes)
    then length r.stream - r.stream_offset
    else nbytes

-- `none` is the result `false`, which leaves the reader as it was.
unfoldable pub load_next_buffer : BReader → ℕ → Option BReader
unfolding tail_bytes fill_buffer big_endian
load_next_buffer r nbits =
    if leb (length r.stream) r.stream_offset
    then none
    else if ltb (r.stream_offset + 8) (length r.stream)
    then some (record r {
      buffer = big_endian 8 (drop r.stream_offset r.stream) 0;
      stream_offset = r.stream_offset + 8;
      valid = 64;
    })
    else some (record r {
      buffer = fill_buffer (tail_bytes r nbits) (drop r.stream_offset r.stream) 0;
      stream_offset = r.stream_offset + tail_bytes r nbits;
      valid = tail_bytes r nbits * 8 % 256;
    })

-- A read returns its value, or `none` for io.EOF, with the reader that it leaves.
abbrev pub Read : Type 0 → Type 0
Read A = BReader → Option A × BReader

unfoldable pub read_bit_fast : Read Bool
read_bit_fast r =
    if r.valid == 0
    then (none, r)
    else let valid = r.valid - 1 in
      (some (not (bit_and r.buffer (shl64 1 valid) == 0)), record r { valid = valid })

-- What follows a call of `loadNextBuffer`: io.EOF, or a read from the new buffer.
pub after_load {ℓ} :
    {A : Type ℓ} → Option BReader → BReader → (BReader → Option A × BReader) → Option A × BReader
after_load none r k = (none, r)
after_load (some r') r k = k r'

unfoldable pub read_bit : Read Bool
read_bit r =
    if r.valid == 0 then after_load (load_next_buffer r 1) r read_bit_fast else read_bit_fast r

unfoldable pub read_bits_fast : ℕ → Read ℕ
read_bits_fast nbits r = if ltb r.valid nbits then (none, r) else (
  some (bit_and (r.buffer / 2 ^ (r.valid - nbits)) (mask64 nbits)),
  record r { valid = r.valid - nbits },
)

-- The second part of a read over two buffers: `v` holds the bits of the first.
pub finish_bits : ℕ → ℕ → Read ℕ
finish_bits nbits v r = (
  some (bit_or v (bit_and (r.buffer / 2 ^ sub8 r.valid nbits) (mask64 nbits))),
  record r { valid = sub8 r.valid nbits },
)

pub read_loaded : ℕ → Read ℕ
read_loaded nbits r =
    if leb nbits r.valid
    then read_bits_fast nbits r
    else let nbits' = nbits - r.valid in
      let v = shl64 (bit_and r.buffer (mask64 r.valid)) nbits' in
      let r' = record r { valid = 0 } in
      after_load (load_next_buffer r' nbits') r' (finish_bits nbits' v)

unfoldable pub read_bits : ℕ → Read ℕ
read_bits nbits r =
    if r.valid == 0
    then after_load (load_next_buffer r nbits) r (read_loaded nbits)
    else read_loaded nbits r

unfoldable pub read_byte : Read ℕ
read_byte r = let (v, r') = read_bits 8 r in (elim v [ none ↦ none | some x ↦ some (x % 256) ], r')
