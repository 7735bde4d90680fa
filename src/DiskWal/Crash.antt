-- ===== src/DiskWal/Crash.antt =====
-- A segment that a crash has cut off anywhere: the records in front of the cut are recovered.
use mathlib.Core.Path.{subst}
use tstorage.Base.{
  ℕ, zero, suc, ◌^◌, ltb, lt→ltb, true, ◌+◌, ◌-◌, ◌≤◌, ◌<◌, ◌≡◌, refl, sym, ap, ◌∙◌, false, leb,
  gt→leb, List, [], ◌∷◌, ◌++◌, append-nil, Option, none, some, length, length-append, take, map,
  All, inl, inr, ◌⊎◌, arith,
}
use tstorage.Words.{IsU64}
use tstorage.Rows.{Row, Label}
use tstorage.Varint.{put_uvarint, put_varint, read_uvarint, read_varint}
use tstorage.Varint.RoundTrip.{Serves}
use tstorage.Varint.Truncated.{read_uvarint-cut, read_varint-cut}
use tstorage.DiskWal.Reader.{
  Next, broken, truncated, SegmentError, read_byte, with_number, with_bytes, with_record,
  read_value, read_point, read_record, read_segment, after_segment, read_all, next,
}
use tstorage.DiskWal.RoundTrip.{
  Serves-read_byte, with_bytes-append, number_lem, signed_lem, wal_record, logged_row, IsLoggable,
  next-wal_record,
}
use tstorage.DiskWal.Writes.{encoded}

take-append-cases :
    (n : ℕ) (xs ys : List ℕ)
    → ((n < length xs) × (take n (xs ++ ys) ≡ take n xs))
      ⊎ ((m : ℕ) × (n ≡ length xs + m) × (take n (xs ++ ys) ≡ xs ++ take m ys))
take-append-cases n [] ys = inr (n, omega arith, refl)
take-append-cases zero (x ∷ xs) ys = inl (omega arith, refl)
take-append-cases (suc n) (x ∷ xs) ys = elim (take-append-cases n xs ys) [
  | inl (lt, e) ↦ inl (omega (arith, lt), ap (◌∷◌ x) e)
  | inr (m, en, e) ↦ inr (m, omega (arith, en), ap (◌∷◌ x) e)
]

take-length : (n : ℕ) (xs : List ℕ) → n < length xs → length (take n xs) ≡ n
take-length zero xs lt = refl
take-length (suc n) [] lt = absurd (omega arith)
take-length (suc n) (x ∷ xs) lt = ap suc (take-length n xs (omega (arith, lt)))

serves : (bytes : List ℕ) → Serves read_byte [] bytes bytes
serves bytes =
    subst (λ k. Serves read_byte [] k bytes) (append-nil bytes) (Serves-read_byte bytes [])

-- A cut in a part, or in what follows, is met there.
number-cut :
    (x n : ℕ) (rest : List ℕ) (f : ℕ → List ℕ → Next)
    → IsU64 x
    → n < length (put_uvarint x ++ rest)
    → ((m : ℕ) → m < length rest → f x (take m rest) ≡ broken truncated)
    → with_number (read_uvarint read_byte (take n (put_uvarint x ++ rest))) f ≡ broken truncated
number-cut x n rest f h lt later = elim (take-append-cases n (put_uvarint x) rest) [
  | inl (short, e) ↦
      ap (λ bytes. with_number (read_uvarint read_byte bytes) f) e
      ∙ ap (λ r. with_number r f)
          (read_uvarint-cut read_byte refl x n (take n (put_uvarint x)) short
            (serves (take n (put_uvarint x))))
  | inr (m, en, e) ↦
      ap (λ bytes. with_number (read_uvarint read_byte bytes) f) e
      ∙ number_lem x (take m rest) f h
      ∙ later m (omega (arith, lt, en, length-append (put_uvarint x) rest))
]

signed-cut :
    (x n : ℕ) (rest : List ℕ) (f : ℕ → List ℕ → Next)
    → IsU64 x
    → n < length (put_varint x ++ rest)
    → ((m : ℕ) → m < length rest → f x (take m rest) ≡ broken truncated)
    → with_number (read_varint read_byte (take n (put_varint x ++ rest))) f ≡ broken truncated
signed-cut x n rest f h lt later = elim (take-append-cases n (put_varint x) rest) [
  | inl (short, e) ↦
      ap (λ bytes. with_number (read_varint read_byte bytes) f) e
      ∙ ap (λ r. with_number r f)
          (read_varint-cut read_byte refl x n (take n (put_varint x)) short
            (serves (take n (put_varint x))))
  | inr (m, en, e) ↦
      ap (λ bytes. with_number (read_varint read_byte bytes) f) e
      ∙ signed_lem x (take m rest) f h
      ∙ later m (omega (arith, lt, en, length-append (put_varint x) rest))
]

bytes-cut :
    (name : List ℕ) (n : ℕ) (rest : List ℕ) (f : List ℕ → List ℕ → Next)
    → length name < 2 ^ 63
    → n < length (name ++ rest)
    → ((m : ℕ) → m < length rest → f name (take m rest) ≡ broken truncated)
    → with_bytes (length name) (take n (name ++ rest)) f ≡ broken truncated
bytes-cut name n rest f int lt later =
    let small : ltb (length name) (2 ^ 63) ≡ true = lt→ltb _ _ int in
    elim (take-append-cases n name rest) [
      | inl (short, e) ↦
          let few : leb (length name) (length (take n (name ++ rest))) ≡ false =
            gt→leb _ _ (omega (arith, short, take-length n name short, ap length e)) in
          rw (small, few) refl
      | inr (m, en, e) ↦
          ap (λ bytes. with_bytes (length name) bytes f) e
          ∙ with_bytes-append name (take m rest) f int
          ∙ later m (omega (arith, lt, en, length-append name rest))
    ]

benign-after :
    (rows : List Row) (e : Option SegmentError)
    → (e ≡ none) ⊎ (e ≡ some truncated)
    → after_segment rows e (some []) ≡ some rows
benign-after rows e (inl whole) = rw whole (ap some (append-nil rows))
benign-after rows e (inr cut) = rw cut refl

module _ (name_of : List ℕ → List Label → List ℕ) where
  next-cut :
      (row : Row) (n : ℕ)
      → IsLoggable name_of row
      → suc n < length (wal_record name_of row)
      → next (take (suc n) (wal_record name_of row)) ≡ broken truncated
  unfolding next read_record
  next-cut row n ((hv, ht), hl) lt =
      let name = name_of row.metric row.labels in
      let value = put_uvarint row.point.value ++ [] in
      let timestamp = put_varint row.point.timestamp ++ value in
      number-cut (length name) n (name ++ timestamp) _ (omega (arith, hl)) (omega (arith, lt))
        (λ m lt₁. bytes-cut name m timestamp read_point hl lt₁ (λ m₁ lt₂.
          signed-cut row.point.timestamp m₁ value (read_value name) ht lt₂
            (λ m₂ lt₃. number-cut row.point.value m₂ [] _ hv lt₃ (λ m₃ lt₄. absurd (omega arith)))))

  -- The first of the rows does not fit into `n` bytes.
  abbrev pub IsShort : ℕ → List Row → Type 0
  IsShort n [] = Unit
  IsShort n (r ∷ rows) = n < length (wal_record name_of r)

  -- What a segment cut off behind `n` bytes gives.
  record Recovers (rows : List Row) (n : ℕ) (r : List Row × Option SegmentError) : Type 0 where
    whole : List Row
    lost : List Row
    split : rows ≡ whole ++ lost
    reads : r.0 ≡ map (logged_row name_of) whole
    benign : (r.1 ≡ none) ⊎ (r.1 ≡ some truncated)
    fits : length (encoded name_of whole) ≤ n
    short : IsShort (n - length (encoded name_of whole)) lost

  read_segment-cut :
      (rows : List Row) (k n : ℕ)
      → All (IsLoggable name_of) rows
      → length (take n (encoded name_of rows)) < k
      → Recovers rows n (read_segment k (take n (encoded name_of rows)))
  unfolding read_segment next
  read_segment-cut rows zero n h lt = absurd (omega arith)
  read_segment-cut [] (suc k) zero h lt = record {
    whole = [];
    lost = [];
    split = refl;
    reads = refl;
    benign = inl refl;
    fits = omega arith;
    short = tt;
  }
  read_segment-cut [] (suc k) (suc n) h lt = record {
    whole = [];
    lost = [];
    split = refl;
    reads = refl;
    benign = inl refl;
    fits = omega arith;
    short = tt;
  }
  read_segment-cut (r ∷ rows) (suc k) zero h lt = record {
    whole = [];
    lost = r ∷ rows;
    split = refl;
    reads = refl;
    benign = inl refl;
    fits = omega arith;
    short = omega arith;
  }
  read_segment-cut (r ∷ rows) (suc k) (suc n) (h, hs) lt =
      let more : List ℕ → List Row × Option SegmentError = λ rest. read_segment k rest in
      elim (take-append-cases (suc n) (wal_record name_of r) (encoded name_of rows)) [
        | inl (short, e) ↦
            let gives =
              ap (λ b. with_record more (next b)) e
              ∙ ap (with_record more) (next-cut r n h short) in
            record {
              whole = [];
              lost = r ∷ rows;
              split = refl;
              reads = ap (λ z. z.0) gives;
              benign = inr (ap (λ z. z.1) gives);
              fits = omega arith;
              short = omega (arith, short);
            }
        | inr (m, en, e) ↦
            let rest = take m (encoded name_of rows) in
            let gives =
              ap (λ b. with_record more (next b)) e
              ∙ ap (with_record more) (next-wal_record name_of r rest h) in
            let i =
              read_segment-cut rows k m hs
                (omega (arith, lt, ap length e, length-append (wal_record name_of r) rest)) in
            record {
              whole = r ∷ i.whole;
              lost = i.lost;
              split = ap (◌∷◌ r) i.split;
              reads = ap (λ z. z.0) gives ∙ ap (◌∷◌ (logged_row name_of r)) i.reads;
              benign =
                  subst (λ z. (z ≡ none) ⊎ (z ≡ some truncated)) (sym (ap (λ z. z.1) gives))
                    i.benign;
              fits = omega (
                arith,
                i.fits,
                en,
                length-append (wal_record name_of r) (encoded name_of i.whole),
              );
              short =
                  subst (λ j. IsShort j i.lost)
                    (omega
                      (arith, en, length-append (wal_record name_of r) (encoded name_of i.whole)))
                    i.short;
            }
      ]

  -- Of a segment of whole records that is cut off behind any number of bytes, readAll reports no
  -- error and recovers the rows of the records in front of the cut, as many as fit, and no others,
  -- when points fit into 64 bits and the names' lengths into an int.
  pub read_all-cut :
      (i n : ℕ) (rows : List Row)
      → All (IsLoggable name_of) rows
      → (whole : List Row) × (lost : List Row) × (rows ≡ whole ++ lost)
        × (read_all ((i, take n (encoded name_of rows)) ∷ [])
            ≡ some (map (logged_row name_of) whole))
        × (length (encoded name_of whole) ≤ n)
        × IsShort (n - length (encoded name_of whole)) lost
  unfolding read_all
  read_all-cut i n rows h =
      let bytes = take n (encoded name_of rows) in
      let r = read_segment-cut rows (suc (length bytes)) n h (omega arith) in
      (r.whole, r.lost, r.split, benign-after _ _ r.benign ∙ ap some r.reads, r.fits, r.short)
