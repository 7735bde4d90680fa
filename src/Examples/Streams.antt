-- ===== src/Examples/Streams.antt =====
-- The stream of bits on a few bytes.
use tstorage.Base.{refl, true, [], ◌∷◌, ◌++◌}
use tstorage.Base.{arith}
use tstorage.Base.Bits.{bits, bytes_bits}
use tstorage.BStream.{BStream, new_stream, write_bit, write_bits, BReader, new_breader}
use tstorage.BStream.{read_bits}
use tstorage.BStream.Writes.{Holds, write_bit-Holds}
use tstorage.BStream.WriteWords.{write_bits-Holds}
use tstorage.BStream.Loads.{Remains}
use tstorage.BStream.Reads.{Reads}
use tstorage.BStream.ReadBits.{read_bits_lem}
use tstorage.Examples.{remains, empty-Holds}

-- Streams and readers.
abbrev one_bit : BStream
one_bit = write_bit new_stream true

one_bit-Holds : Holds one_bit (1 ∷ [])
one_bit-Holds = write_bit-Holds true empty-Holds

write_bits-Holds_example : Holds (write_bits one_bit 0xabc 12) ((1 ∷ []) ++ bits 12 0xabc)
write_bits-Holds_example = write_bits-Holds 0xabc 12 (omega arith) one_bit-Holds

abbrev two_bytes : BReader
two_bytes = new_breader (0xab ∷ 0xcd ∷ [])

two_bytes_remain : Remains two_bytes (bytes_bits (0xab ∷ 0xcd ∷ []))
two_bytes_remain = remains (0xab ∷ 0xcd ∷ []) refl

read_bits_lem_example : Reads (read_bits 12) two_bytes 0xabc (bits 4 0xd)
read_bits_lem_example =
    read_bits_lem two_bytes 12 0xabc (bits 4 0xd) (omega arith) (omega arith) (omega arith)
      two_bytes_remain
