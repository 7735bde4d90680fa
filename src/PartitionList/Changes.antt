-- ===== src/PartitionList/Changes.antt =====
-- The operations of the list against operations on plain lists.
use tstorage.Base.{ℕ, ◌<◌, ◌≡◌, refl, ap, Bool, true, false, ◌==◌, if◌then◌else◌}
use tstorage.Base.{List, [], ◌∷◌, ◌++◌, Option, none, some, length, map, All, All-map, arith}
use tstorage.PartitionList.{PartitionList, node, write}
use tstorage.PartitionList.{new_partition_list, insert}
use tstorage.PartitionList.Chain.{Cells, has, IsChain, IsChain-write}

module _ {P : Type 0} where
  -- The list holds the cells, at addresses that have been given out, and counts them.
  pub record IsList (l : PartitionList P) (xs : Cells P) : Type 0 where
    pub chain : IsChain l.heap l.head xs
    pub below : All (λ e. e.0 < l.fresh) xs
    pub count : l.num_partitions ≡ length xs

  -- The list holds the partitions `ps`, newest first.
  abbrev pub Holds : PartitionList P → List P → Type 0
  Holds l ps = (xs : Cells P) × IsList l xs × (map (λ e. e.1) xs ≡ ps)

  -- The specifications of `remove` and `swap`: the first element that passes the test.
  abbrev pub drop_first : (P → Bool) → List P → List P
  drop_first test [] = []
  drop_first test (p ∷ ps) = let rest = drop_first test ps in if test p then ps else p ∷ rest

  abbrev pub replace_first : (P → Bool) → P → List P → List P
  replace_first test q [] = []
  replace_first test q (p ∷ ps) =
      let rest = replace_first test q ps in if test p then q ∷ ps else p ∷ rest

  abbrev pub find_first : (P → Bool) → List P → Option P
  find_first test [] = none
  find_first test (p ∷ ps) = let rest = find_first test ps in if test p then some p else rest

  pub fresh_out : (a : ℕ) (xs : Cells P) → All (λ e. e.0 < a) xs → has a xs ≡ false
  fresh_out a [] h = refl
  fresh_out a ((b, v) ∷ xs) (lt, h) = ground (arith, fresh_out a xs h)

  pub new-IsList : IsList new_partition_list []
  new-IsList = record { chain = refl; below = tt; count = refl }

  pub insert-IsList :
      (l : PartitionList P) (xs : Cells P) (p : P)
      → IsList l xs
      → IsList (insert l p) ((l.fresh, p) ∷ xs)
  unfolding insert write
  insert-IsList l xs p is = record {
    chain = (
      refl,
      (
        l.head,
        ground arith,
        fresh_out l.fresh xs is.below,
        unfold write in
            IsChain-write l.heap l.fresh (node p l.head) l.head xs is.chain
              (fresh_out l.fresh xs is.below),
      ),
    );
    below = (omega arith, All-map (λ e lt. omega arith) xs is.below);
    count = omega (arith, is.count);
  }

  -- A search in the list.
  pub size_zero :
      (l : PartitionList P) (xs : Cells P) → IsList l xs → (l.num_partitions == 0) ≡ true → xs ≡ []
  size_zero l [] is e = refl
  size_zero l (x ∷ xs) is e = absurd (ground (arith, is.count, e))

  pub missed :
      (test : P → Bool) (q : P) (xs : Cells P)
      → All (λ e. test e.1 ≡ false) xs
      → (find_first test (map (λ e. e.1) xs) ≡ none)
        × (drop_first test (map (λ e. e.1) xs) ≡ map (λ e. e.1) xs)
        × (replace_first test q (map (λ e. e.1) xs) ≡ map (λ e. e.1) xs)
  missed test q [] h = (refl, refl, refl)
  missed test q ((a, v) ∷ xs) (m, h) =
      let (i, j, k) = missed test q xs h in (rw m i, rw m (ap (◌∷◌ v) j), rw m (ap (◌∷◌ v) k))

  pub hit_first :
      (test : P → Bool) (q : P) (front : Cells P) (a b : ℕ) (v : P) (back : Cells P)
      → All (λ e. test e.1 ≡ false) front
      → test v ≡ true
      → (find_first test (map (λ e. e.1) (front ++ (a, v) ∷ back)) ≡ some v)
        × (drop_first test (map (λ e. e.1) (front ++ (a, v) ∷ back))
            ≡ map (λ e. e.1) (front ++ back))
        × (replace_first test q (map (λ e. e.1) (front ++ (a, v) ∷ back))
            ≡ map (λ e. e.1) (front ++ (b, q) ∷ back))
  hit_first test q [] a b v back h hit = (rw hit refl, rw hit refl, rw hit refl)
  hit_first test q ((c, w) ∷ front) a b v back (m, h) hit =
      let (i, j, k) = hit_first test q front a b v back h hit in
      (rw m i, rw m (ap (◌∷◌ w) j), rw m (ap (◌∷◌ w) k))
