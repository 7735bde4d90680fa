-- ===== src/Encoding/Decoder/Values.antt =====
-- The delta of deltas and the value of a point in `decodePoint`.
use native.Mathlib.Nat.{mod-lt, one-le-pow}
use tstorage.Base.{ℕ, suc, ◌+◌, ◌%◌, ◌^◌, ◌≤◌, ◌<◌, ◌≡◌, refl, sym, ap, ◌∙◌}
use tstorage.Base.{bit_xor, true, false, List, ◌∷◌, ◌++◌, arith}
use tstorage.Base.{some, ◌==◌, Bool-cases, ==_iff, inl, inr}
use tstorage.Base.Bitwise.{xor-zero}
use tstorage.Base.Bits.{bits, bits-mod}
use tstorage.Words.{IsU64, biased, sub8, shl64}
use tstorage.BStream.{BReader, read_bits}
use tstorage.BStream.Loads.{Remains}
use tstorage.BStream.ReadBits.{read_bits_lem}
use tstorage.Encoding.{between}
use tstorage.Encoding.Codes.{value_code, dod_code}
use tstorage.Encoding.Decoder.{Decoder, Decode, ok, ◌>>=◌, pure, gets, modify, from_stream}
use tstorage.Encoding.Decoder.{next_bit, next_bits, read_delimiter, extend, read_dod, read_value}
use tstorage.Encoding.Decoder.{read_changed, read_significant, next_dod}
use tstorage.Encoding.Decoder.Reads.{bind_lem, from_stream_lem, next_bit_lem, next_bits_lem}
use tstorage.Encoding.Decoder.Reads.{delimiter_zero, delimiter_ones, ones, after_ones, shifted}

-- `m` reads `a`, changes only the reader, and leaves `more` to read.
abbrev pub DecodesTo : {A : Type 0} → Decode A → Decoder → A → List ℕ → Type 0
DecodesTo m d a more = (br : BReader) × (m d ≡ (ok a, record d { br = br })) × Remains br more

-- A delta of deltas in `n` bits, sign included.
extend_lem :
    (dod : ℕ)
    → IsU64 dod
    → (between 63 64 dod ≡ true → extend 7 (dod % 2 ^ 7) ≡ dod)
      × (between 255 256 dod ≡ true → extend 9 (dod % 2 ^ 9) ≡ dod)
      × (between 2047 2048 dod ≡ true → extend 12 (dod % 2 ^ 12) ≡ dod)
unfolding biased
extend_lem dod h = (λ e. ground arith, λ e. ground arith, λ e. ground arith)

sized_lem :
    (n dod : ℕ) (d : Decoder) (more : List ℕ)
    → 0 < n
    → n ≤ 64
    → extend n (dod % 2 ^ n) ≡ dod
    → Remains d.br (bits n dod ++ more)
    → DecodesTo (do bits ← from_stream (next_bits n); pure (extend n bits)) d dod more
unfolding pure
sized_lem n dod d more pos le e h =
    let (br, reads, h') =
      next_bits_lem d.br n (dod % 2 ^ n) more pos le
        (mod-lt dod {m = 2 ^ n} (one-le-pow n 2 (omega arith))) (rw (bits-mod n dod) h) in
    (br, bind_lem _ _ (from_stream_lem _ d reads) ∙ ap (λ x. (ok x, record d { br = br })) e, h')

-- `k` ones and a zero, then the part for that delimiter.
delimited :
    (n k m dod : ℕ) (d : Decoder) (more rest : List ℕ)
    → n + suc k ≡ 4
    → shifted (after_ones n 0) ≡ m
    → Remains d.br (ones n (0 ∷ more))
    → ((d' : Decoder) → Remains d'.br more → DecodesTo (read_dod m) d' dod rest)
    → DecodesTo next_dod d dod rest
unfolding next_dod
delimited n k m dod d more rest e mark h part =
    let (r, eats, h') = delimiter_ones n (suc k) 0 d.br (0 ∷ more) h in
    let (r', reads, h'') = delimiter_zero k (after_ones n 0) r more h' in
    let (br, decodes, done) = part (record d { br = r' }) h'' in
    (
      br,
      bind_lem _ _ (
            from_stream_lem (read_delimiter 4 0) d (
              ap (λ j. read_delimiter j 0 d.br) (sym e)
              ∙ eats
              ∙ reads
              ∙ ap (λ x. (some x, r')) mark))
          ∙ decodes,
      done,
    )

full : (r : BReader) → read_delimiter 0 0x0f r ≡ (some 0x0f, r)
full r = unfold read_delimiter in refl

-- Where the code of a 64-bit delta of deltas comes next, the delimiter's loop and the switch on it
-- find that delta of deltas, sign included, for each of the five sizes.
pub dod_lem :
    (dod : ℕ) (d : Decoder) (more : List ℕ)
    → IsU64 dod
    → Remains d.br (dod_code dod ++ more)
    → DecodesTo next_dod d dod more
unfolding next_dod
dod_lem dod d more lt h = elim (Bool-cases (dod == 0)) [
  | inl e ↦
      delimited 0 3 0 dod d more more refl refl (rw e at h)
        (λ d' h'. (d'.br, unfold read_dod pure in ground arith, h'))
  | inr e₀ ↦ elim (Bool-cases (between 63 64 dod)) [
    | inl e ↦ delimited 1 2 2 dod d (bits 7 dod ++ more) more refl refl (rw (e₀, e) at h) (λ d' h'.
        unfold read_dod in
        sized_lem 7 dod d' more (omega arith) (omega arith) ((extend_lem dod lt).0 e) h')
    | inr e₁ ↦ elim (Bool-cases (between 255 256 dod)) [
      | inl e ↦
          delimited 2 1 6 dod d (bits 9 dod ++ more) more refl refl (rw (e₀, e₁, e) at h) (λ d' h'.
            unfold read_dod in
            sized_lem 9 dod d' more (omega arith) (omega arith) ((extend_lem dod lt).1 e) h')
      | inr e₂ ↦ elim (Bool-cases (between 2047 2048 dod)) [
        | inl e ↦
            delimited 3 0 14 dod d (bits 12 dod ++ more) more refl refl (rw (e₀, e₁, e₂, e) at h)
              (λ d' h'.
                unfold read_dod in
                sized_lem 12 dod d' more (omega arith) (omega arith) ((extend_lem dod lt).2 e) h')
        | inr e₃ ↦
            let (r, eats, h') =
              delimiter_ones 4 0 0 d.br (bits 64 dod ++ more) (rw (e₀, e₁, e₂, e₃) at h) in
            let (br, reads, done) = read_bits_lem r 64 dod more (omega arith) (omega arith) lt h' in
            (
              br,
              bind_lem _ _ (from_stream_lem (read_delimiter 4 0) d (eats ∙ full r))
                  ∙ unfold read_dod in from_stream_lem (read_bits 64) (record d { br = r }) reads,
              done,
            )
      ]
    ]
  ]
]

-- In the initial window the changed value is written in full.
read_significant_lem :
    (d : Decoder) (x : ℕ) (more : List ℕ)
    → d.leading ≡ 0
    → d.trailing ≡ 0
    → IsU64 x
    → Remains d.br (bits 64 x ++ more)
    → (br : BReader) × (read_significant d ≡ (ok tt, record d { br = br; v = bit_xor d.v x }))
      × Remains br more
unfolding read_significant gets modify
read_significant_lem d x more el et lt h =
    let (br, reads, done) = next_bits_lem d.br 64 x more (omega arith) (omega arith) lt h in
    (
      br,
      bind_lem (gets _) _ refl
          ∙ bind_lem _ _ (from_stream_lem _ d (ap (λ n. next_bits n d.br) width ∙ reads))
          ∙ ap (λ y. (ok tt, record d { br = br; v = bit_xor d.v y })) whole,
      done,
    )
  where
    width : sub8 (sub8 64 d.leading) d.trailing ≡ 64
    width = omega arith

    whole : shl64 x d.trailing ≡ x
    whole = ap (shl64 x) et ∙ omega arith

-- In the initial window, where the code of the difference from the last value comes next, readValue
-- changes the value by that difference and reads exactly the code.
pub read_value_lem :
    (d : Decoder) (x : ℕ) (more : List ℕ)
    → d.leading ≡ 0
    → d.trailing ≡ 0
    → IsU64 x
    → Remains d.br (value_code x ++ more)
    → (br : BReader) × (read_value d ≡ (ok tt, record d { br = br; v = bit_xor d.v x }))
      × Remains br more
unfolding read_value read_changed pure
read_value_lem d x more el et lt h = elim (Bool-cases (x == 0)) [
  | inl e ↦
      let (br, reads, done) = next_bit_lem d.br false more (rw e at h) in
      (
        br,
        bind_lem _ _ (from_stream_lem next_bit d reads)
            ∙ ap (λ y. (ok tt, record d { br = br; v = y }))
                (sym (xor-zero d.v) ∙ ap (bit_xor d.v) (sym ((==_iff x 0).0 e))),
        done,
      )
  | inr e ↦
      let (r, reads, h') = next_bit_lem d.br true (0 ∷ (bits 64 x ++ more)) (rw e at h) in
      let (r', reads', h'') = next_bit_lem r false (bits 64 x ++ more) h' in
      let (br, decodes, done) = read_significant_lem (record d { br = r' }) x more el et lt h'' in
      (
        br,
        bind_lem _ _ (from_stream_lem next_bit d reads)
            ∙ bind_lem _ _ (from_stream_lem next_bit (record d { br = r }) reads')
            ∙ bind_lem _ _ refl
            ∙ decodes,
        done,
      )
]
