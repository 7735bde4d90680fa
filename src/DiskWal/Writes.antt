-- ===== src/DiskWal/Writes.antt =====
-- What the operations of the log leave in its segments and its buffer.
use mathlib.Core.Path.{subst}
use tstorage.Base.{
  ℕ, suc, ◌+◌, ◌<◌, ◌%◌, ◌^◌, ◌≡◌, refl, sym, ap, ◌∙◌, Bool, true, false, ◌==◌, if◌then◌else◌,
  Bool-cases, inl, inr, List, [], ◌∷◌, ◌++◌, append_assoc, append-nil, map, All, All-map,
  All-append, arith,
}
use tstorage.Rows.{Row, Label}
use tstorage.DiskWal.{
  DiskWal, WalFiles, Segments, put_bytes, create_file, record_chunks, then_next, write_chunk,
  write_chunks, flush_wal, punctuate, append_rows, append, close_file, create_segment_file,
}
use tstorage.DiskWal.RoundTrip.{joined, wal_record}

-- Files can be made, written and closed, and the buffered writer keeps the order of the bytes and
-- loses none.
pub record IsWorking (os : WalFiles) : Type 0 where
  pub conserves : (n : ℕ) (bytes : List ℕ) → (os.spill n bytes).0 ++ (os.spill n bytes).1 ≡ bytes
  pub writes : (bytes : List ℕ) → os.writes bytes ≡ true
  pub closes : (i : ℕ) → os.closes i ≡ true
  pub creates : (i : ℕ) → os.creates i ≡ true

put_bytes-last :
    (i : ℕ) (bytes bs : List ℕ) (front : Segments)
    → All (λ e. e.0 < i) front
    → put_bytes i bytes (front ++ (i, bs) ∷ []) ≡ front ++ (i, bs ++ bytes) ∷ []
put_bytes-last i bytes bs [] h = let same : (i == i) ≡ true = ground arith in rw same refl
put_bytes-last i bytes bs ((k, x) ∷ front) (lt, h) =
    let other : (k == i) ≡ false = ground (arith, lt) in
    rw other (ap (◌∷◌ (k, x)) (put_bytes-last i bytes bs front h))

create_file-new :
    (i : ℕ) (front : Segments)
    → All (λ e. e.0 < i) front
    → create_file i front ≡ front ++ (i, []) ∷ []
create_file-new i [] h = refl
create_file-new i ((k, x) ∷ front) (lt, h) =
    let other : (k == i) ≡ false = ground (arith, lt) in
    rw other (ap (◌∷◌ (k, x)) (create_file-new i front h))

-- The segments have the indices from `i` to below `n`, in order.
abbrev pub IsNumbered : ℕ → Segments → ℕ → Type 0
IsNumbered i [] n = i ≡ n
IsNumbered i ((k, bs) ∷ segments) n = (k ≡ i) × IsNumbered (suc i) segments n

pub IsNumbered-snoc :
    (i n : ℕ) (segments : Segments) (bs : List ℕ)
    → IsNumbered i segments n
    → IsNumbered i (segments ++ (n, bs) ∷ []) (suc n)
IsNumbered-snoc i n [] bs e = (sym e, ap suc e)
IsNumbered-snoc i n ((k, x) ∷ segments) bs (e, h) = (e, IsNumbered-snoc (suc i) n segments bs h)

module _ (name_of : List ℕ → List Label → List ℕ) where
  abbrev pub encoded : List Row → List ℕ
  encoded rows = joined (map (wal_record name_of) rows)

  joined-append : (xs ys : List (List ℕ)) → joined (xs ++ ys) ≡ joined xs ++ joined ys
  joined-append [] ys = refl
  joined-append (x ∷ xs) ys =
      ap (λ k. x ++ k) (joined-append xs ys) ∙ sym (append_assoc x (joined xs) (joined ys))

  encoded-snoc :
      (rows : List Row) (r : Row) → encoded (rows ++ r ∷ []) ≡ encoded rows ++ wal_record name_of r
  encoded-snoc [] r = append-nil (wal_record name_of r)
  encoded-snoc (x ∷ rows) r =
      ap (λ k. wal_record name_of x ++ k) (encoded-snoc rows r)
      ∙ sym (append_assoc (wal_record name_of x) (encoded rows) (wal_record name_of r))

  -- The segments that are closed, and the active one with the buffer, hold these bytes.
  pub record IsLog (w : DiskWal) (front : Segments) (bytes : List ℕ) : Type 0 where
    pub file : List ℕ
    pub segments : w.segments ≡ front ++ (w.fd, file) ∷ []
    pub holds : file ++ w.buffer ≡ bytes
    pub below : All (λ e. e.0 < w.fd) front
    pub index : w.index ≡ suc w.fd
    pub numbered : IsNumbered 0 front w.fd

  -- A call of the log, and what it leaves.
  abbrev pub Leaves : Bool × DiskWal → DiskWal → Segments → List ℕ → Type 0
  Leaves r w front bytes =
      (w' : DiskWal) × (r ≡ (true, w')) × (w'.index ≡ w.index) × IsLog w' front bytes

  module _ (os : WalFiles) (works : IsWorking os) where
    write_chunk_lem :
        (c : List ℕ) (w : DiskWal) (front : Segments) (bytes : List ℕ)
        → IsLog w front bytes
        → Leaves (write_chunk os c w) w front (bytes ++ c)
    write_chunk_lem c w front bytes l =
        let (out, kept) = os.spill w.buffered_size (w.buffer ++ c) in
        (
          record w { segments = put_bytes w.fd out w.segments; buffer = kept },
          rw (works.writes out) refl,
          refl,
          record {
            file = l.file ++ out;
            segments =
                ap (put_bytes w.fd out) l.segments ∙ put_bytes-last w.fd out l.file front l.below;
            holds =
                append_assoc l.file out kept
                ∙ ap (λ k. l.file ++ k) (works.conserves w.buffered_size (w.buffer ++ c))
                ∙ sym (append_assoc l.file w.buffer c)
                ∙ ap (λ k. k ++ c) l.holds;
            below = l.below;
            index = l.index;
            numbered = l.numbered;
          },
        )

    write_chunks_lem :
        (chunks : List (List ℕ)) (w : DiskWal) (front : Segments) (bytes : List ℕ)
        → IsLog w front bytes
        → Leaves (write_chunks os chunks w) w front (bytes ++ joined chunks)
    write_chunks_lem [] w front bytes l =
        (w, refl, refl, subst (IsLog w front) (sym (append-nil bytes)) l)
    write_chunks_lem (c ∷ chunks) w front bytes l =
        let (w₁, e₁, i₁, l₁) = write_chunk_lem c w front bytes l in
        let (w₂, e₂, i₂, l₂) = write_chunks_lem chunks w₁ front (bytes ++ c) l₁ in
        (
          w₂,
          ap (λ r. then_next r (λ w'. write_chunks os chunks w')) e₁ ∙ e₂,
          i₂ ∙ i₁,
          subst (IsLog w₂ front) (append_assoc bytes c (joined chunks)) l₂,
        )

    append_rows_lem :
        (rows : List Row) (w : DiskWal) (front : Segments) (bytes : List ℕ)
        → IsLog w front bytes
        → Leaves (append_rows name_of os rows w) w front (bytes ++ encoded rows)
    append_rows_lem [] w front bytes l =
        (w, refl, refl, subst (IsLog w front) (sym (append-nil bytes)) l)
    append_rows_lem (r ∷ rows) w front bytes l =
        let (w₁, e₁, i₁, l₁) = write_chunks_lem (record_chunks name_of r) w front bytes l in
        let (w₂, e₂, i₂, l₂) = append_rows_lem rows w₁ front (bytes ++ wal_record name_of r) l₁ in
        (
          w₂,
          ap (λ z. then_next z (λ w'. append_rows name_of os rows w')) e₁ ∙ e₂,
          i₂ ∙ i₁,
          subst (IsLog w₂ front) (append_assoc bytes (wal_record name_of r) (encoded rows)) l₂,
        )

    -- Behind a flush all bytes are in the file.
    pub flush_wal_lem :
        (w : DiskWal) (front : Segments) (bytes : List ℕ)
        → IsLog w front bytes
        → (w' : DiskWal) × (flush_wal os w ≡ (true, w'))
          × (w'.index ≡ w.index)
          × IsLog w' front bytes
          × (w'.segments ≡ front ++ (w.fd, bytes) ∷ [])
          × (w'.fd ≡ w.fd)
    flush_wal_lem w front bytes l =
        let segments' =
          ap (put_bytes w.fd w.buffer) l.segments
          ∙ put_bytes-last w.fd w.buffer l.file front l.below in
        (
          record w { segments = put_bytes w.fd w.buffer w.segments; buffer = [] },
          rw (works.writes w.buffer) refl,
          refl,
          record {
            file = l.file ++ w.buffer;
            segments = segments';
            holds = append-nil (l.file ++ w.buffer) ∙ l.holds;
            below = l.below;
            index = l.index;
            numbered = l.numbered;
          },
          segments' ∙ ap (λ b. front ++ (w.fd, b) ∷ []) l.holds,
          refl,
        )

    pub append_lem :
        (rows : List Row) (w : DiskWal) (front : Segments) (bytes : List ℕ)
        → IsLog w front bytes
        → Leaves (append name_of os rows w) w front (bytes ++ encoded rows)
    append_lem rows w front bytes l =
        let (w₁, e₁, i₁, l₁) = append_rows_lem rows w front bytes l in
        let end : DiskWal → Bool × DiskWal =
          λ w'. if w'.buffered_size == 0 then flush_wal os w' else (true, w') in
        elim (Bool-cases (w₁.buffered_size == 0)) [
          | inl unbuffered ↦
              let (w₂, e₂, i₂, l₂, rest, same) =
                flush_wal_lem w₁ front (bytes ++ encoded rows) l₁ in
              (w₂, ap (λ z. then_next z end) e₁ ∙ rw unbuffered e₂, i₂ ∙ i₁, l₂)
          | inr buffered ↦ (w₁, ap (λ z. then_next z end) e₁ ∙ rw buffered refl, i₁, l₁)
        ]

    pub punctuate_lem :
        (w : DiskWal) (front : Segments) (bytes : List ℕ)
        → IsLog w front bytes
        → w.index + 1 < 2 ^ 32
        → (w' : DiskWal) × (punctuate os w ≡ (true, w'))
          × (w'.index ≡ w.index + 1)
          × IsLog w' (front ++ (w.fd, bytes) ∷ []) []
    punctuate_lem w front bytes l lt =
        let (w₁, e₁, i₁, l₁, segments₁, same) = flush_wal_lem w front bytes l in
        let front' = front ++ (w.fd, bytes) ∷ [] in
        let below' : All (λ e. e.0 < w₁.index) front' =
          All-append _ front ((w.fd, bytes) ∷ [])
            (All-map (λ e k. omega (arith, k, i₁, l.index)) front l.below)
            (omega (arith, i₁, l.index), tt) in
        let w₂ : DiskWal = record w₁ {
          segments = create_file w₁.index w₁.segments;
          fd = w₁.index;
          buffer = [];
          index = (w₁.index + 1) % 2 ^ 32;
        } in
        (
          w₂,
          ap (λ r. then_next (then_next r (close_file os)) (create_segment_file os)) e₁
              ∙ rw (works.closes w₁.fd, works.creates w₁.index) refl,
          omega (arith, lt, i₁),
          record {
            file = [];
            segments = ap (create_file w₁.index) segments₁ ∙ create_file-new w₁.index front' below';
            holds = refl;
            below = below';
            index = omega (arith, lt, i₁);
            numbered =
                subst (IsNumbered 0 front') (sym (i₁ ∙ l.index))
                  (IsNumbered-snoc 0 w.fd front bytes l.numbered);
          },
        )
