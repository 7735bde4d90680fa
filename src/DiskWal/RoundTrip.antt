-- ===== src/DiskWal/RoundTrip.antt =====
-- What is written to a segment is what the reader recovers.
use tstorage.Base.{
  ℕ, zero, suc, ◌^◌, ◌<◌, ltb, lt→ltb, ◌≡◌, refl, ap, ◌∙◌, true, leb, le→leb, List, [], ◌∷◌, ◌++◌,
  append_assoc, none, length, length-append, take, drop, map, All, arith,
}
use tstorage.Words.{IsU64}
use tstorage.Rows.{Row, Label, IsPoint}
use tstorage.Varint.{put_uvarint, put_varint, read_uvarint, read_varint}
use tstorage.Varint.RoundTrip.{Serves, done, next, read_uvarint-put_uvarint, read_varint-put_varint}
use tstorage.DiskWal.{record_chunks}
use tstorage.DiskWal.Reader.{
  Next, has_record, read_byte, recovered_row, with_number, with_bytes, read_value, read_point,
  read_record, read_segment, with_record,
}
use tstorage.DiskWal.Reader

abbrev pub joined : List (List ℕ) → List ℕ
joined [] = []
joined (c ∷ chunks) = c ++ joined chunks

pub Serves-read_byte : (bytes rest : List ℕ) → Serves read_byte rest (bytes ++ rest) bytes
Serves-read_byte [] rest = done
Serves-read_byte (b ∷ bytes) rest =
    next (b ∷ bytes ++ rest) (bytes ++ rest) b bytes refl (Serves-read_byte bytes rest)

take-append : (xs ys : List ℕ) → take (length xs) (xs ++ ys) ≡ xs
take-append [] ys = refl
take-append (x ∷ xs) ys = ap (◌∷◌ x) (take-append xs ys)

drop-append : (xs ys : List ℕ) → drop (length xs) (xs ++ ys) ≡ ys
drop-append [] ys = refl
drop-append (x ∷ xs) ys = drop-append xs ys

pub with_bytes-append :
    (bytes rest : List ℕ) (f : List ℕ → List ℕ → Next)
    → length bytes < 2 ^ 63
    → with_bytes (length bytes) (bytes ++ rest) f ≡ f bytes rest
with_bytes-append bytes rest f int =
    let small : ltb (length bytes) (2 ^ 63) ≡ true = lt→ltb _ _ int in
    let enough : leb (length bytes) (length (bytes ++ rest)) ≡ true =
      le→leb _ _ (omega (arith, length-append bytes rest)) in
    rw (small, enough, take-append bytes rest, drop-append bytes rest) refl

pub number_lem :
    (n : ℕ) (rest : List ℕ) (f : ℕ → List ℕ → Next)
    → IsU64 n
    → with_number (read_uvarint read_byte (put_uvarint n ++ rest)) f ≡ f n rest
number_lem n rest f h =
    ap (λ r. with_number r f)
      (read_uvarint-put_uvarint read_byte n h (Serves-read_byte (put_uvarint n) rest))

pub signed_lem :
    (n : ℕ) (rest : List ℕ) (f : ℕ → List ℕ → Next)
    → IsU64 n
    → with_number (read_varint read_byte (put_varint n ++ rest)) f ≡ f n rest
signed_lem n rest f h =
    ap (λ r. with_number r f)
      (read_varint-put_varint read_byte n h (Serves-read_byte (put_varint n) rest))

abbrev in_front : List (List ℕ) → List ℕ → List ℕ
in_front [] rest = rest
in_front (c ∷ chunks) rest = c ++ in_front chunks rest

joined-in_front :
    (chunks : List (List ℕ)) (rest : List ℕ) → joined chunks ++ rest ≡ in_front chunks rest
joined-in_front [] rest = refl
joined-in_front (c ∷ chunks) rest =
    append_assoc c (joined chunks) rest ∙ ap (λ k. c ++ k) (joined-in_front chunks rest)

module _ (name_of : List ℕ → List Label → List ℕ) where
  -- The bytes of a row's record.
  abbrev pub wal_record : Row → List ℕ
  wal_record row = joined (record_chunks name_of row)

  -- The row that is recovered: labels are in the metric's name.
  abbrev pub logged_row : Row → Row
  logged_row row = recovered_row (name_of row.metric row.labels) row.point.timestamp row.point.value

  -- A row that fits into a record: the length of a name is an int.
  abbrev pub IsLoggable : Row → Type 0
  IsLoggable row = IsPoint row.point × (length (name_of row.metric row.labels) < 2 ^ 63)

  pub next-wal_record :
      (row : Row) (rest : List ℕ)
      → IsLoggable row
      → Reader.next (wal_record row ++ rest) ≡ has_record (logged_row row) rest
  unfolding Reader.next read_record
  next-wal_record row rest ((hv, ht), hl) =
      let name = name_of row.metric row.labels in
      let value = put_uvarint row.point.value ++ rest in
      let timestamp = put_varint row.point.timestamp ++ value in
      ap Reader.next (joined-in_front (record_chunks name_of row) rest)
      ∙ number_lem (length name) (name ++ timestamp) _ (omega (arith, hl))
      ∙ with_bytes-append name timestamp read_point hl
      ∙ signed_lem row.point.timestamp value (read_value name) ht
      ∙ number_lem row.point.value rest (λ v. has_record (recovered_row name row.point.timestamp v))
          hv

  pub read_segment-wal_record :
      (rows : List Row) (k : ℕ)
      → All IsLoggable rows
      → length rows < k
      → read_segment k (joined (map wal_record rows)) ≡ (map logged_row rows, none)
  unfolding read_segment Reader.next
  read_segment-wal_record [] zero h lt = absurd (omega arith)
  read_segment-wal_record [] (suc k) h lt = refl
  read_segment-wal_record (r ∷ rows) zero h lt = absurd (omega arith)
  read_segment-wal_record (r ∷ rows) (suc k) (h, hs) lt =
      ap (with_record (λ rest. read_segment k rest))
        (next-wal_record r (joined (map wal_record rows)) h)
      ∙ ap (λ z. (logged_row r ∷ z.0, z.1)) (read_segment-wal_record rows k hs (omega arith))
