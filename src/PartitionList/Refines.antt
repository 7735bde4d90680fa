-- ===== src/PartitionList/Refines.antt =====
-- The operations of the list against operations on plain lists of partitions.
use mathlib.Core.Path.{subst}
use tstorage.Base.{suc, ◌≡◌, refl, sym, ap, ◌∙◌, Bool, true, false, ◌==◌, if◌then◌else◌}
use tstorage.Base.{List, [], ◌∷◌, ◌++◌, Option, none, some, map, arith, inl, inr, ◌⊎◌}
use tstorage.PartitionList.{PartitionList, dummy, current, current_node, scan}
use tstorage.PartitionList.{advance_iterator, ListError, empty_list, not_found, clean_failed}
use tstorage.PartitionList.{
  new_partition_list, new_iterator, get_head, insert, remove, swap, to_list,
}
use tstorage.PartitionList.Chain.{Cells}
use tstorage.PartitionList.Links.{unlink-IsList, relink-IsList}
use tstorage.PartitionList.Scan.{Misses, Finds, scan_lem, visit_lem}
use tstorage.PartitionList.Changes.{
  IsList, Holds, drop_first, replace_first, find_first, missed, hit_first,
}
use tstorage.PartitionList.Changes.{new-IsList, insert-IsList}

-- The errors that the operations return, by the partitions and the one that is found.
module _ {P : Type 0} where
  abbrev pub search_error : List P → Option P → Option ListError → Option ListError
  search_error [] r e = some empty_list
  search_error (p ∷ ps) none e = some not_found
  search_error (p ∷ ps) (some v) e = e

  abbrev pub clean_error : (P → Bool) → Option P → Option ListError
  clean_error clean none = none
  clean_error clean (some v) = if clean v then none else some clean_failed

  pub new-Holds : Holds {P = P} new_partition_list []
  new-Holds = ([], new-IsList, refl)

  pub insert_lem :
      (l : PartitionList P) (ps : List P) (p : P) → Holds l ps → Holds (insert l p) (p ∷ ps)
  insert_lem l ps p (xs, is, e) = ((l.fresh, p) ∷ xs, insert-IsList l xs p is, ap (◌∷◌ p) e)

  pub to_list_lem : (l : PartitionList P) (ps : List P) → Holds l ps → to_list l ≡ ps
  unfolding to_list
  to_list_lem l ps (xs, is, e) = rw is.count (visit_lem l.heap l.head xs is.chain ∙ e)

  abbrev pub first : List P → Option P
  first [] = none
  first (p ∷ ps) = some p

  pub get_head_lem : (l : PartitionList P) (ps : List P) → Holds l ps → get_head l ≡ first ps
  unfolding get_head
  get_head_lem l ps ([], is, e) = rw (get_head, is.count, ← e) refl
  get_head_lem l ps ((a, v) ∷ xs, is, e) =
      let (h, (q, at, out, s)) = is.chain in
      let nonempty : (l.num_partitions == 0) ≡ false = ground (arith, is.count) in
      rw (get_head, nonempty, h, at, ← e) refl

  -- The search of `remove` and `swap` in a list.
  search :
      (test : P → Bool) (l : PartitionList P) (xs : Cells P)
      → IsList l xs
      → Misses test xs (scan (suc l.num_partitions) test l.heap none (new_iterator l))
        ⊎ Finds test l.heap [] xs (scan (suc l.num_partitions) test l.heap none (new_iterator l))
  search test l xs is =
      subst
        (λ n.
          Misses test xs (scan (suc n) test l.heap none (dummy l.head))
          ⊎ Finds test l.heap [] xs (scan (suc n) test l.heap none (dummy l.head)))
        (sym is.count) (scan_lem test l.heap l.head xs is.chain)

  -- What `remove` does to a list of the partitions `ps`.
  Removed : (P → P → Bool) → (P → Bool) → PartitionList P → P → List P → Type 0
  Removed same clean l target ps =
      let r = find_first (λ p. same p target) ps in
      ((remove same clean l target).0 ≡ search_error ps r (clean_error clean r))
      × Holds (remove same clean l target).1 (drop_first (λ p. same p target) ps)

  remove_cells :
      (same : P → P → Bool) (clean : P → Bool) (l : PartitionList P) (target : P) (xs : Cells P)
      → IsList l xs
      → Removed same clean l target (map (λ e. e.1) xs)
  unfolding Removed remove advance_iterator
  remove_cells same clean l target [] is =
      let empty : (l.num_partitions == 0) ≡ true = ground (arith, is.count) in
      (rw (remove, empty) refl, rw (remove, empty) ([], is, refl))
  remove_cells same clean l target ((a, v) ∷ xs) is =
      let nonempty : (l.num_partitions == 0) ≡ false = ground (arith, is.count) in
      elim (search (λ p. same p target) l ((a, v) ∷ xs) is) [
        | inl (all, e) ↦
            let (i, j, k) = missed (λ p. same p target) target ((a, v) ∷ xs) all in
            (rw (remove, nonempty, e, i) refl, rw (remove, nonempty, e) ((a, v) ∷ xs, is, sym j))
        | inr f ↦
            let (i, j, k) =
              hit_first (λ p. same p target) target f.skipped f.at 0 f.val f.back f.failing
                f.passing in
            let partitions : Cells P → List P = map (λ e. e.1) in
            let found' = ap (λ ys. find_first (λ p. same p target) (partitions ys)) f.split ∙ i in
            let rest' = ap (λ ys. drop_first (λ p. same p target) (partitions ys)) f.split ∙ j in
            let next' : current_node (advance_iterator l.heap (current (some f.at))) ≡ f.next =
              rw (advance_iterator, f.cell) refl in
            (
              rw (remove, nonempty, f.gives, found') refl,
              rw (remove, nonempty, f.gives, next')
                  (
                    f.skipped ++ f.back,
                    unlink-IsList l f.skipped f.back f.at f.val f.prev f.next
                        (subst (IsList l) f.split is) f.before f.rest,
                    sym rest',
                  ),
            )
      ]

  -- What `swap` does to a list of the partitions `ps`.
  Swapped : (P → P → Bool) → PartitionList P → P → P → List P → Type 0
  Swapped same l old new ps =
      ((swap same l old new).0 ≡ search_error ps (find_first (λ p. same p old) ps) none)
      × Holds (swap same l old new).1 (replace_first (λ p. same p old) new ps)

  swap_cells :
      (same : P → P → Bool) (l : PartitionList P) (old new : P) (xs : Cells P)
      → IsList l xs
      → Swapped same l old new (map (λ e. e.1) xs)
  unfolding Swapped swap
  swap_cells same l old new [] is =
      let empty : (l.num_partitions == 0) ≡ true = ground (arith, is.count) in
      (rw (swap, empty) refl, rw (swap, empty) ([], is, refl))
  swap_cells same l old new ((a, v) ∷ xs) is =
      let nonempty : (l.num_partitions == 0) ≡ false = ground (arith, is.count) in
      elim (search (λ p. same p old) l ((a, v) ∷ xs) is) [
        | inl (all, e) ↦
            let (i, j, k) = missed (λ p. same p old) new ((a, v) ∷ xs) all in
            (rw (swap, nonempty, e, i) refl, rw (swap, nonempty, e) ((a, v) ∷ xs, is, sym k))
        | inr f ↦
            let (i, j, k) =
              hit_first (λ p. same p old) new f.skipped f.at l.fresh f.val f.back f.failing
                f.passing in
            let partitions : Cells P → List P = map (λ e. e.1) in
            let found' = ap (λ ys. find_first (λ p. same p old) (partitions ys)) f.split ∙ i in
            let rest' =
              ap (λ ys. replace_first (λ p. same p old) new (partitions ys)) f.split ∙ k in
            (
              rw (swap, nonempty, f.gives, found') refl,
              rw (swap, nonempty, f.gives)
                  (
                    f.skipped ++ (l.fresh, new) ∷ f.back,
                    relink-IsList l f.skipped f.back f.at f.val new f.prev f.next _
                        (subst (IsList l) f.split is) f.before f.rest,
                    sym rest',
                  ),
            )
      ]

  -- Remove on a linked list that holds some partitions leaves a linked list that holds them without
  -- the first that is the same as the target, or all of them when none is; it reports an empty
  -- list, a target that is not found, and a partition that is taken out but cannot be cleaned, and
  -- no other error.
  pub remove_lem :
      (same : P → P → Bool) (clean : P → Bool) (l : PartitionList P) (target : P) (ps : List P)
      → Holds l ps
      → ((remove same clean l target).0
          ≡ search_error ps
              (find_first (λ p. same p target) ps)
              (clean_error clean (find_first (λ p. same p target) ps)))
        × Holds (remove same clean l target).1 (drop_first (λ p. same p target) ps)
  unfolding Removed
  remove_lem same clean l target ps (xs, is, e) =
      subst (Removed same clean l target) e (remove_cells same clean l target xs is)

  -- Swap on a linked list that holds some partitions leaves a linked list that holds them with the
  -- new one in place of the first that is the same as the old one, or all of them when none is; it
  -- reports an empty list and an old one that is not found, and no other error.
  pub swap_lem :
      (same : P → P → Bool) (l : PartitionList P) (old new : P) (ps : List P)
      → Holds l ps
      → ((swap same l old new).0 ≡ search_error ps (find_first (λ p. same p old) ps) none)
        × Holds (swap same l old new).1 (replace_first (λ p. same p old) new ps)
  unfolding Swapped
  swap_lem same l old new ps (xs, is, e) =
      subst (Swapped same l old new) e (swap_cells same l old new xs is)
