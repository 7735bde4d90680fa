-- ===== src/PartitionList.antt =====
-- partition_list.go: the linked list of partitions, newest first. Its nodes stand in a heap, a
-- function from addresses; `nil` is `none`. Locks and atomics are not modelled: each operation runs
-- by itself. String, which is for debugging, is left out. `P` is the type of the partitions.
pub mod Chain
pub mod Scan
pub mod Changes
pub mod Links
pub mod Refines
pub mod Each
use tstorage.Base.{
  ℕ, zero, suc, ◌+◌, ◌-◌, Bool, ◌==◌, if◌then◌else◌, List, [], ◌∷◌, Option, none, some,
}

pub record Node (P : Type 0) : Type 0 where
  pub val : P
  pub next : Option ℕ

abbrev pub Heap : Type 0 → Type 0
Heap P = ℕ → Option (Node P)

pub data ListError : Type 0 where
  empty_list not_found clean_failed : ListError

module _ {P : Type 0} where
  abbrev pub node : P → Option ℕ → Node P
  node v q = record { val = v; next = q }

  unfoldable pub write : Heap P → ℕ → Node P → Heap P
  write h a c b = if b == a then some c else h b

  -- p.next = q
  pub set_next : Heap P → ℕ → Option ℕ → Heap P
  set_next h a q = elim (h a) [ none ↦ h | some c ↦ write h a (record c { next = q }) ]

-- `fresh` is the address of the node that is made next.
pub record PartitionList (P : Type 0) : Type 0 where
  pub num_partitions : ℕ
  pub head : Option ℕ
  pub tail : Option ℕ
  pub heap : Heap P
  pub fresh : ℕ

-- The iterator's current node: the dummy in front of a node, or a node that may be nil.
pub data Iterator : Type 0 where
  dummy : Option ℕ → Iterator
  current : Option ℕ → Iterator

abbrev pub current_node : Iterator → Option ℕ
current_node (dummy p) = none
current_node (current p) = p

-- What a search has found: the node before, the node, and the iterator.
pub data Found (P : Type 0) : Type 0 where
  missing : Found P
  found : Option ℕ → Node P → Iterator → Found P

module _ {P : Type 0} where
  abbrev pub new_partition_list : PartitionList P
  new_partition_list = record {
    num_partitions = 0;
    head = none;
    tail = none;
    heap = λ a. none;
    fresh = 0;
  }

  unfoldable pub get_head : PartitionList P → Option P
  get_head l = if l.num_partitions == 0 then none else elim l.head [
    | none ↦ none
    | some a ↦ elim (l.heap a) [ none ↦ none | some c ↦ some c.val ]
  ]

  abbrev pub new_iterator : PartitionList P → Iterator
  new_iterator l = dummy l.head

  pub advance_iterator : Heap P → Iterator → Iterator
  advance_iterator h (dummy p) = current p
  advance_iterator h (current none) = current none
  advance_iterator h (current (some a)) = elim (h a) [
    | none ↦ current none
    | some c ↦ current c.next
  ]

  unfoldable pub insert : PartitionList P → P → PartitionList P
  insert l p = record l {
    heap = write l.heap l.fresh (node p l.head);
    fresh = l.fresh + 1;
    head = some l.fresh;
    num_partitions = l.num_partitions + 1;
  }

  -- The loop `for iterator.next()` that `remove` and `swap` share, up to the first node that
  -- passes `test`, on fuel.
  pub scan : ℕ → (P → Bool) → Heap P → Option ℕ → Iterator → Found P
  scan zero test h prev it = missing
  scan (suc k) test h prev it =
      let it' = advance_iterator h it in
      elim (current_node it') [
        | none ↦ missing
        | some a ↦ elim (h a) [
          | none ↦ missing
          | some c ↦
              let rest = scan k test h (some a) it' in if test c.val then found prev c it' else rest
        ]
      ]

  -- The switches of `remove` and `swap`: the node before, and what follows the node.
  pub unlink : PartitionList P → Option ℕ → Option ℕ → PartitionList P
  unlink l none next = record l { head = next }
  unlink l (some b) none = record l { heap = set_next l.heap b none; tail = some b }
  unlink l (some b) (some a) = record l { heap = set_next l.heap b (some a) }

  pub relink : PartitionList P → Option ℕ → Option ℕ → ℕ → PartitionList P
  relink l none next n = record l { head = some n }
  relink l (some b) none n = record l { heap = set_next l.heap b (some n); tail = some n }
  relink l (some b) (some a) n = record l { heap = set_next l.heap b (some n) }

  -- `clean` says whether a partition could be cleaned. No error is `none`.
  unfoldable pub remove :
      (P → P → Bool) → (P → Bool) → PartitionList P → P → Option ListError × PartitionList P
  remove same clean l target =
      if l.num_partitions == 0
      then (some empty_list, l)
      else elim (scan (suc l.num_partitions) (λ p. same p target) l.heap none (new_iterator l)) [
        | missing ↦ (some not_found, l)
        | found prev c it ↦ (
          if clean c.val then none else some clean_failed,
          record (unlink l prev (current_node (advance_iterator l.heap it))) {
            num_partitions = l.num_partitions - 1;
          },
        )
      ]

  unfoldable pub swap :
      (P → P → Bool) → PartitionList P → P → P → Option ListError × PartitionList P
  swap same l old new =
      if l.num_partitions == 0
      then (some empty_list, l)
      else elim (scan (suc l.num_partitions) (λ p. same p old) l.heap none (new_iterator l)) [
        | missing ↦ (some not_found, l)
        | found prev c it ↦ (
          none,
          relink (record l { heap = write l.heap l.fresh (node new c.next); fresh = l.fresh + 1 })
              prev (current_node (advance_iterator l.heap it)) l.fresh,
        )
      ]

  -- The partitions that a loop over the iterator meets, on fuel.
  pub visit : ℕ → Heap P → Iterator → List P
  visit zero h it = []
  visit (suc k) h it =
      let it' = advance_iterator h it in
      elim (current_node it') [
        | none ↦ []
        | some a ↦ elim (h a) [ none ↦ [] | some c ↦ c.val ∷ visit k h it' ]
      ]

  unfoldable pub to_list : PartitionList P → List P
  to_list l = visit (suc l.num_partitions) l.heap (new_iterator l)
