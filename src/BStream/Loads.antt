-- ===== src/BStream/Loads.antt =====
-- What is left to read in a reader, and `loadNextBuffer`.
use mathlib.Core.Path.{ap₂}
use native.Mathlib.Nat.{mod-eq_of_lt, pow-le-pow_right, one-le-pow}
use tstorage.Base.{ℕ, zero, suc, ◌+◌, ◌-◌, ◌*◌, ◌%◌, ◌^◌, ◌≤◌, ◌<◌, ◌≡◌, refl, sym, ap, ◌∙◌}
use tstorage.Base.{bit_or, List, [], ◌∷◌, ◌++◌, append-nil, append_assoc, arith, some}
use tstorage.Base.{length, take, drop, take-append-drop, length-drop, All}
use tstorage.Base.{false, ltb, leb, Bool-cases, ltb→lt, gt→leb, All-drop, drop-drop, inl, inr}
use tstorage.Base.Bitwise.{or_disjoint}
use tstorage.Base.Bits.{bits, bytes_bits, bytes_bits-append, length-bytes_bits, bits-join, pow-add}
use tstorage.Words.{IsByte}
use tstorage.BStream.{BReader, big_endian, fill_buffer, tail_bytes, load_next_buffer}

-- The bits that a reader has not given out: those of its buffer, then those of the stream.
abbrev pub unread : BReader → List ℕ
unread r = bits r.valid r.buffer ++ bytes_bits (drop r.stream_offset r.stream)

pub record Remains (r : BReader) (out : List ℕ) : Type 0 where
  pub bytes : All IsByte r.stream
  pub width : r.valid ≤ 64
  pub rest : unread r ≡ out

-- Eight bytes as one number, on top of `acc`.
big_endian-bits :
    (k w acc : ℕ) (bytes : List ℕ)
    → k ≤ length bytes
    → All IsByte bytes
    → bits (w + 8 * k) (big_endian k bytes acc) ≡ bits w acc ++ bytes_bits (take k bytes)
unfolding big_endian
big_endian-bits zero w acc bytes h all =
    ap (λ n. bits n acc) {x = w + 8 * 0} {y = w} (omega arith) ∙ sym (append-nil (bits w acc))
big_endian-bits (suc k) w acc [] h all = absurd (omega arith)
big_endian-bits (suc k) w acc (b ∷ bs) h (lt, all) =
    ap (λ n. bits n (big_endian k bs (acc * 256 + b))) {x = w + 8 * suc k} {y = (w + 8) + 8 * k}
      (omega arith)
    ∙ big_endian-bits k (w + 8) (acc * 256 + b) bs (omega arith) all
    ∙ ap (λ t. t ++ bytes_bits (take k bs)) (bits-join w 8 acc b lt)
    ∙ append_assoc (bits w acc) (bits 8 b) (bytes_bits (take k bs))

-- The loop: with `k` bytes to come, the buffer holds `acc` above 8 * k clear bits.
fill_buffer-big_endian :
    (k acc : ℕ) (bytes : List ℕ)
    → k ≤ 8
    → k ≤ length bytes
    → All IsByte bytes
    → fill_buffer k bytes (acc * 2 ^ (8 * k)) ≡ big_endian k bytes acc
unfolding fill_buffer big_endian
fill_buffer-big_endian zero acc bytes h8 h all = omega arith
fill_buffer-big_endian (suc k) acc [] h8 h all = absurd (omega arith)
fill_buffer-big_endian (suc k) acc (b ∷ bs) h8 h (lt, all) =
    ap (fill_buffer k bs) put
    ∙ fill_buffer-big_endian k (acc * 256 + b) bs (omega arith) (omega arith) all
  where
    power : 2 ^ (8 * suc k) ≡ 256 * 2 ^ (8 * k)
    power = ap (λ n. 2 ^ n) {x = 8 * suc k} {y = 8 + 8 * k} (omega arith) ∙ pow-add 8 (8 * k)

    low : b * 2 ^ (8 * k) < 2 ^ (8 * suc k)
    low = grind (arith, power, one-le-pow (8 * k) 2 (omega arith))

    small : b * 2 ^ (8 * k) % 2 ^ 64 ≡ b * 2 ^ (8 * k)
    small = mod-eq_of_lt (
        omega (
          arith,
          low,
          pow-le-pow_right {n = 2} (omega arith) {i = 8 * suc k} {j = 64} (omega arith),
        ))

    put : bit_or (acc * 2 ^ (8 * suc k)) (b * 2 ^ (8 * k) % 2 ^ 64) ≡ (acc * 256 + b) * 2 ^ (8 * k)
    put =
        ap (bit_or (acc * 2 ^ (8 * suc k))) small
        ∙ or_disjoint (8 * suc k) acc (b * 2 ^ (8 * k)) low
        ∙ omega (arith, ap (λ (t : ℕ). acc * t) power)

-- `k` bytes moved from the stream to the buffer.
moved :
    (k off : ℕ) (stream : List ℕ)
    → k ≤ length (drop off stream)
    → All IsByte stream
    → bits (8 * k) (big_endian k (drop off stream) 0) ++ bytes_bits (drop (off + k) stream)
      ≡ bytes_bits (drop off stream)
moved k off stream h all =
    let tail = drop off stream in
    ap₂ ◌++◌
      (ap (λ n. bits n (big_endian k tail 0)) {x = 8 * k} {y = 0 + 8 * k} (omega arith)
        ∙ big_endian-bits k 0 0 tail h (All-drop IsByte off stream all))
      (ap bytes_bits (sym (drop-drop k off stream)))
    ∙ sym (bytes_bits-append (take k tail) (drop k tail))
    ∙ ap bytes_bits (take-append-drop k tail)

-- The two readers that a load can leave.
abbrev far_load : BReader → BReader
far_load r = record r {
  buffer = big_endian 8 (drop r.stream_offset r.stream) 0;
  stream_offset = r.stream_offset + 8;
  valid = 64;
}

abbrev near_load : BReader → ℕ → BReader
near_load r n = record r {
  buffer = fill_buffer (tail_bytes r n) (drop r.stream_offset r.stream) 0;
  stream_offset = r.stream_offset + tail_bytes r n;
  valid = tail_bytes r n * 8 % 256;
}

module _ {r : BReader} {out : List ℕ} (n : ℕ) (h : Remains r out) (empty : r.valid ≡ 0) where
  left_over : out ≡ bytes_bits (drop r.stream_offset r.stream)
  left_over =
      sym h.rest ∙ ap (λ v. bits v r.buffer ++ bytes_bits (drop r.stream_offset r.stream)) empty

  length-left_over : length out ≡ 8 * (length r.stream - r.stream_offset)
  length-left_over =
      ap length left_over
      ∙ length-bytes_bits (drop r.stream_offset r.stream)
      ∙ ap (λ k. 8 * k) (length-drop r.stream_offset r.stream)

  Remains-moved :
      (k v b : ℕ)
      → k ≤ 8
      → r.stream_offset + k ≤ length r.stream
      → v ≡ 8 * k
      → b ≡ big_endian k (drop r.stream_offset r.stream) 0
      → Remains (record r { buffer = b; stream_offset = r.stream_offset + k; valid = v }) out
  Remains-moved k v b le fits ev eb = record {
    bytes = h.bytes;
    width = omega arith;
    rest =
        ap₂ (λ n x. bits n x ++ bytes_bits (drop (r.stream_offset + k) r.stream)) ev eb
        ∙ moved k r.stream_offset r.stream (omega (arith, length-drop r.stream_offset r.stream))
            h.bytes
        ∙ sym left_over;
  }

  module _ (pos : 0 < n) (le : n ≤ 64) (enough : n ≤ length out) where
    some_left : leb (length r.stream) r.stream_offset ≡ false
    some_left = gt→leb _ _ (omega (arith, length-left_over))

    tail_bytes_bounds :
        ltb (r.stream_offset + 8) (length r.stream) ≡ false
        → (tail_bytes r n ≤ 8)
          × (r.stream_offset + tail_bytes r n ≤ length r.stream)
          × (n ≤ 8 * tail_bytes r n)
    unfolding tail_bytes
    tail_bytes_bounds near = ground (arith, length-left_over)

    near_buffer :
        ltb (r.stream_offset + 8) (length r.stream) ≡ false
        → (near_load r n).buffer ≡ big_endian (tail_bytes r n) (drop r.stream_offset r.stream) 0
    near_buffer near =
        let bounds = tail_bytes_bounds near in
        ap (fill_buffer (tail_bytes r n) (drop r.stream_offset r.stream)) {x = 0}
          {y = 0 * 2 ^ (8 * tail_bytes r n)} (omega arith)
        ∙ fill_buffer-big_endian (tail_bytes r n) 0 (drop r.stream_offset r.stream) (bounds.0)
            (omega (arith, bounds.1, length-drop r.stream_offset r.stream))
            (All-drop IsByte r.stream_offset r.stream h.bytes)

    -- On an empty buffer and with n bits left, 0 < n ≤ 64, loadNextBuffer succeeds, loses none of
    -- the bits that were left, and has at least n of them in the buffer.
    pub load_lem :
        (r' : BReader) × (load_next_buffer r n ≡ some r') × Remains r' out × (n ≤ r'.valid)
    unfolding load_next_buffer
    load_lem = elim (Bool-cases (ltb (r.stream_offset + 8) (length r.stream))) [
      | inl far ↦ (
        far_load r,
        rw (some_left, far),
        Remains-moved 8 64 _ (omega arith) (omega (arith, ltb→lt _ _ far)) refl refl,
        le,
      )
      | inr near ↦
          let bounds = tail_bytes_bounds near in
          (
            near_load r n,
            rw (some_left, near),
            Remains-moved (tail_bytes r n) _ _ (bounds.0) (bounds.1) (omega (arith, bounds.0))
                (near_buffer near),
            omega (arith, bounds.0, bounds.2),
          )
    ]
