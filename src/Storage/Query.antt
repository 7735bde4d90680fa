-- ===== src/Storage/Query.antt =====
-- `Select` over the partitions of the storage.
use tstorage.Base.{
  ℕ, ◌≡◌, refl, sym, ap, ◌∙◌, Bool, true, false, not, ◌&&◌, ◌==◌, if◌then◌else◌, Bool-cases, inl,
  inr,
}
use tstorage.Base.{List, [], ◌∷◌, ◌++◌, append_assoc, append-nil, Option, none, some, map, filter}
use tstorage.Base.{ltb→lt, ltb→ge, le→leb, gt→leb}
use tstorage.Words.{slt, sle}
use tstorage.Rows.{DataPoint, Label}
use tstorage.MemoryMetric.{MemoryMetric}
use tstorage.Partition.{Partition, min_timestamp, max_timestamp}
use tstorage.Partition.{Answer, points, nothing, select_panicked, decode_error, select_from}
use tstorage.PartitionList.Changes.{Holds}
use tstorage.PartitionList.Each.{each_item, after_item, each_lem}
use tstorage.Storage.{
  Storage, Selecting, so_far, failed, StorageError, panicked, select_failed, metric_missing,
  start_not_before_end, select_turn, written, answered, select_result, select,
}

-- The elements in front of the first that passes the test.
abbrev pub take_until : {A : Type 0} → (A → Bool) → List A → List A
take_until test [] = []
take_until test (x ∷ xs) = let rest = take_until test xs in if test x then [] else x ∷ rest

-- The partition has a row.
abbrev pub has_rows : Partition → Bool
has_rows p = not (min_timestamp p == 0)

-- All that is asked for lies behind the partition.
abbrev pub is_older : ℕ → Partition → Bool
is_older start p = has_rows p && slt (max_timestamp p) start

abbrev pub is_asked : ℕ → Partition → Bool
is_asked end p = has_rows p && sle (min_timestamp p) end

abbrev pub asked : ℕ → ℕ → List Partition → List Partition
asked start end ps = filter (is_asked end) (take_until (is_older start) ps)

module _ (start end : ℕ) (p : Partition) (ps : List Partition) where
  pub asked-stop : is_older start p ≡ true → asked start end (p ∷ ps) ≡ []
  asked-stop e = rw e refl

  pub asked-skip :
      is_older start p ≡ false
      → is_asked end p ≡ false
      → asked start end (p ∷ ps) ≡ asked start end ps
  asked-skip e e' = rw (e, e') refl

  pub asked-take :
      is_older start p ≡ false
      → is_asked end p ≡ true
      → asked start end (p ∷ ps) ≡ p ∷ asked start end ps
  asked-take e e' = rw (e, e') refl

-- The answers of the partitions, newest first, put together oldest first.
abbrev pub joined : List Answer → Selecting
joined [] = so_far []
joined (points qs ∷ answers) =
    let rest = joined answers in elim rest [ so_far ps ↦ so_far (ps ++ qs) | failed e ↦ failed e ]
joined (nothing ∷ answers) = joined answers
joined (select_panicked ∷ answers) = failed panicked
joined (decode_error e ∷ answers) = failed select_failed

pub joined-points :
    (answers : List Answer) (qs ps : List DataPoint)
    → joined answers ≡ so_far ps
    → joined (points qs ∷ answers) ≡ so_far (ps ++ qs)
joined-points answers qs ps e =
    ap (λ t. elim t as (λ u. Selecting) [ so_far rs ↦ so_far (rs ++ qs) | failed x ↦ failed x ]) e

abbrev onto : Selecting → List DataPoint → Selecting
onto (so_far ps) qs = so_far (ps ++ qs)
onto (failed e) qs = failed e

onto-nil : (t : Selecting) → onto t [] ≡ t
onto-nil (so_far ps) = ap so_far (append-nil ps)
onto-nil (failed e) = refl

onto-points :
    (answers : List Answer) (qs ps : List DataPoint)
    → onto (joined answers) (qs ++ ps) ≡ onto (joined (points qs ∷ answers)) ps
onto-points answers qs ps = go (joined answers)
  where
    go :
        (t : Selecting)
        → onto t (qs ++ ps)
          ≡ onto (elim t [ so_far ps ↦ so_far (ps ++ qs) | failed e ↦ failed e ]) ps
    go (so_far rs) = ap so_far (sym (append_assoc rs qs ps))
    go (failed e) = refl

module _ (name_of : List ℕ → List Label → List ℕ) (now : ℕ) (metric : List ℕ) (labels : List Label)
    (start end : ℕ) where
  abbrev pub answer_of : Partition → Answer
  answer_of p = (select_from name_of now p metric labels start end).0

  turn_lem :
      (capacity : MemoryMetric → ℕ) (write : List DataPoint → Partition → Partition)
      (ps : List Partition) (qs : List DataPoint) (r : Answer × Partition)
      → ((rs : List DataPoint)
          → (each_item (select_turn name_of now capacity metric labels start end) ps (so_far rs)).0
            ≡ onto (joined (map answer_of (asked start end ps))) rs)
      → (after_item
          (λ t. each_item (select_turn name_of now capacity metric labels start end) ps t)
          ps
          (answered write qs r)).0
        ≡ onto (joined (r.0 ∷ map answer_of (asked start end ps))) qs
  turn_lem capacity write ps qs (points rs, p) h =
      h (rs ++ qs) ∙ onto-points (map answer_of (asked start end ps)) rs qs
  turn_lem capacity write ps qs (nothing, p) h = h qs
  turn_lem capacity write ps qs (select_panicked, p) h = refl
  turn_lem capacity write ps qs (decode_error e, p) h = refl

  loop_lem :
      (capacity : MemoryMetric → ℕ) (ps : List Partition) (qs : List DataPoint)
      → (each_item (select_turn name_of now capacity metric labels start end) ps (so_far qs)).0
        ≡ onto (joined (map answer_of (asked start end ps))) qs
  unfolding select_turn
  loop_lem capacity [] qs = refl
  loop_lem capacity (p ∷ ps) qs = elim (Bool-cases (min_timestamp p == 0)) [
    | inl empty ↦
        let skip : is_asked end p ≡ false = rw empty refl in
        rw (empty, skip) (loop_lem capacity ps qs)
    | inr full ↦ elim (Bool-cases (slt (max_timestamp p) start)) [
      | inl older ↦ rw (full, older) refl
      | inr newer ↦ elim (Bool-cases (slt end (min_timestamp p))) [
        | inl after ↦
            let no : sle (min_timestamp p) end ≡ false = gt→leb _ _ (ltb→lt _ _ after) in
            let skip : is_asked end p ≡ false = rw (full, no) refl in
            rw (full, newer, after, skip) (loop_lem capacity ps qs)
        | inr before ↦
            let yes : sle (min_timestamp p) end ≡ true = le→leb _ _ (ltb→ge _ _ before) in
            let take_it : is_asked end p ≡ true = rw (full, yes) refl in
            rw (full, newer, before, take_it)
              (turn_lem capacity (written capacity (name_of metric labels) end) ps qs
                (select_from name_of now p metric labels start end) (λ rs. loop_lem capacity ps rs))
      ]
    ]
  ]

-- What Select says of its metric and range before it looks at the partitions.
abbrev pub refused : List ℕ → ℕ → ℕ → Option StorageError
refused [] start end = some metric_missing
refused (c ∷ metric) start end = if sle end start then some start_not_before_end else none

module _ {W : Type 0} (name_of : List ℕ → List Label → List ℕ) (now : ℕ) where
  -- Select reports a missing metric and a start that is not before end; else it asks the partitions
  -- with a nonzero min timestamp that do not start after end, in front of the first of those whose
  -- max timestamp is before start, and gives their points, oldest partition first, or the error of
  -- the newest partition that fails with another error than no points, or the error for no points.
  pub select_lem :
      (s : Storage W) (ps : List Partition) (metric : List ℕ) (labels : List Label) (start end : ℕ)
      → Holds s.partition_list ps
      → (select name_of now s metric labels start end).0 ≡ (elim (refused metric start end) [
        | some e ↦ ([], some e)
        | none ↦
            select_result
              (joined (map (answer_of name_of now metric labels start end) (asked start end ps)))
      ])
  unfolding select
  select_lem s ps [] labels start end h = refl
  select_lem s ps (c ∷ metric) labels start end h = elim (Bool-cases (sle end start)) [
    | inl bad ↦ rw bad refl
    | inr good ↦ rw good (
        ap select_result (
          (each_lem (select_turn name_of now s.capacity (c ∷ metric) labels start end)
            s.partition_list (so_far []) ps h).0
          ∙ loop_lem name_of now (c ∷ metric) labels start end s.capacity ps []
          ∙ onto-nil _))
  ]
