-- ===== src/PartitionList/Each.antt =====
-- The loops `for iterator.next()` of storage.go whose body may change the partition at hand, and
-- the same loops over plain lists. A body gives the state after its turn, and the partition.
use mathlib.Core.Path.{subst}
use tstorage.Base.{ℕ, zero, suc, ◌<◌, ◌≡◌, refl, sym, ap, ◌∙◌, false}
use tstorage.Base.{List, [], ◌∷◌, Option, none, some, length, map, All, arith}
use tstorage.PartitionList.{Node, Heap, PartitionList, node, Iterator, current, current_node}
use tstorage.PartitionList.{advance_iterator, write, new_iterator}
use tstorage.PartitionList.Chain.{Cells, has, IsChain, IsChain-write}
use tstorage.PartitionList.Changes.{IsList, Holds}

pub data Turn (S : Type 0) : Type 0 where
  go_on stop : S → Turn S

module _ {P : Type 0} where
  -- Cells at the same addresses.
  abbrev pub SamePlaces : Cells P → Cells P → Type 0
  SamePlaces [] [] = Unit
  SamePlaces [] (y ∷ ys) = ⊥
  SamePlaces (x ∷ xs) [] = ⊥
  SamePlaces ((a, v) ∷ xs) ((b, w) ∷ ys) = (a ≡ b) × SamePlaces xs ys

  has-places : (a : ℕ) (xs ys : Cells P) → SamePlaces xs ys → has a xs ≡ has a ys
  has-places a [] [] e = refl
  has-places a [] (y ∷ ys) e = absurd e
  has-places a (x ∷ xs) [] e = absurd e
  has-places a ((b, v) ∷ xs) ((c, w) ∷ ys) (e, es) = rw (e, has-places a xs ys es) refl

  length-places : (xs ys : Cells P) → SamePlaces xs ys → length xs ≡ length ys
  length-places [] [] e = refl
  length-places [] (y ∷ ys) e = absurd e
  length-places (x ∷ xs) [] e = absurd e
  length-places ((b, v) ∷ xs) ((c, w) ∷ ys) (e, es) = ap suc (length-places xs ys es)

  below-places :
      (n : ℕ) (xs ys : Cells P) → SamePlaces xs ys → All (λ e. e.0 < n) ys → All (λ e. e.0 < n) xs
  below-places n [] [] e h = tt
  below-places n [] (y ∷ ys) e h = absurd e
  below-places n (x ∷ xs) [] e h = absurd e
  below-places n ((b, v) ∷ xs) ((c, w) ∷ ys) (e, es) (lt, h) =
      (subst (λ k. k < n) (sym e) lt, below-places n xs ys es h)

  SamePlaces-refl : (xs : Cells P) → SamePlaces xs xs
  SamePlaces-refl [] = tt
  SamePlaces-refl ((a, v) ∷ xs) = (refl, SamePlaces-refl xs)

module _ {S P : Type 0} where
  -- What follows a turn at the node `a`.
  abbrev pub after_turn : (Heap P → S → S × Heap P) → Heap P → ℕ → Node P → Turn S × P → S × Heap P
  after_turn next h a c (go_on s, v) = next (write h a (record c { val = v })) s
  after_turn next h a c (stop s, v) = (s, write h a (record c { val = v }))

  pub each_node : ℕ → (S → P → Turn S × P) → Heap P → Iterator → S → S × Heap P
  each_node zero body h it s = (s, h)
  each_node (suc k) body h it s =
      let it' = advance_iterator h it in
      elim (current_node it') [
        | none ↦ (s, h)
        | some a ↦ elim (h a) [
          | none ↦ (s, h)
          | some c ↦ after_turn (λ h' s'. each_node k body h' it' s') h a c (body s c.val)
        ]
      ]

  unfoldable pub each : (S → P → Turn S × P) → PartitionList P → S → S × PartitionList P
  each body l s =
      let (s', h) = each_node (suc l.num_partitions) body l.heap (new_iterator l) s in
      (s', record l { heap = h })

  -- The same over a plain list.
  abbrev pub after_item : (S → S × List P) → List P → Turn S × P → S × List P
  after_item next ps (go_on s, v) = let (s', ps') = next s in (s', v ∷ ps')
  after_item next ps (stop s, v) = (s, v ∷ ps)

  abbrev pub each_item : (S → P → Turn S × P) → List P → S → S × List P
  each_item body [] s = (s, [])
  each_item body (p ∷ ps) s = after_item (λ s'. each_item body ps s') ps (body s p)

  -- A run over the nodes `xs` gives what the run over their partitions gives, at the same nodes,
  -- and leaves the heap outside of them.
  record Ran (h : Heap P) (p : Option ℕ) (xs : Cells P) (r : S × Heap P) (spec : S × List P)
      : Type 0 where
    cells : Cells P
    chain : IsChain r.1 p cells
    places : SamePlaces cells xs
    state : (r.0, map (λ e. e.1) cells) ≡ spec
    outside : (b : ℕ) → has b xs ≡ false → r.1 b ≡ h b

  -- One turn, when the run that follows is right.
  turn_lem :
      (next : Heap P → S → S × Heap P) (next' : S → S × List P) (h : Heap P) (a : ℕ) (v : P)
      (q : Option ℕ) (xs : Cells P) (t : Turn S × P)
      → h a ≡ some (node v q)
      → has a xs ≡ false
      → IsChain h q xs
      → ((h' : Heap P) (s' : S) (w : P)
          → h' a ≡ some (node w q)
          → IsChain h' q xs
          → Ran h' q xs (next h' s') (next' s'))
      → Ran h
          (some a)
          ((a, v) ∷ xs)
          (after_turn next h a (node v q) t)
          (after_item next' (map (λ e. e.1) xs) t)
  unfolding write
  turn_lem next next' h a v q xs (go_on s, w) at out chain run =
      let r =
        run (write h a (node w q)) s w (ground arith)
          (IsChain-write h a (node w q) q xs chain out) in
      record {
        cells = (a, w) ∷ r.cells;
        chain = (
          refl,
          (q, r.outside a out ∙ ground arith, has-places a r.cells xs r.places ∙ out, r.chain),
        );
        places = (refl, r.places);
        state = ap (λ z. (z.0, w ∷ z.1)) r.state;
        outside = λ b o. r.outside b (ground (arith, o)) ∙ ground (arith, o);
      }
  turn_lem next next' h a v q xs (stop s, w) at out chain run = record {
    cells = (a, w) ∷ xs;
    chain = (refl, (q, ground arith, out, IsChain-write h a (node w q) q xs chain out));
    places = (refl, SamePlaces-refl xs);
    state = refl;
    outside = λ b o. ground (arith, o);
  }

  run_lem :
      (k : ℕ) (body : S → P → Turn S × P) (h : Heap P) (p : Option ℕ) (it : Iterator) (xs : Cells P)
      (s : S)
      → length xs < k
      → advance_iterator h it ≡ current p
      → IsChain h p xs
      → Ran h p xs (each_node k body h it s) (each_item body (map (λ e. e.1) xs) s)
  unfolding advance_iterator each_node
  run_lem zero body h p it xs s lt e c = absurd (omega arith)
  run_lem (suc k) body h p it [] s lt e c =
      rw (each_node, e, c)
        (record { cells = []; chain = refl; places = tt; state = refl; outside = λ b o. refl })
  run_lem (suc k) body h p it ((a, v) ∷ xs) s lt e (e', (q, at, out, c)) =
      let moved = e ∙ ap current e' in
      rw (each_node, e, e', at)
        (turn_lem (λ h' s'. each_node k body h' (advance_iterator h it) s')
          (λ s'. each_item body (map (λ e. e.1) xs) s') h a v q xs (body s v) at out c
          (λ h' s' w at' c'.
            run_lem k body h' q (advance_iterator h it) xs s' (omega arith)
              (rw (moved, advance_iterator, at') refl) c'))

  each_cells :
      (body : S → P → Turn S × P) (l : PartitionList P) (s : S) (xs : Cells P)
      → IsList l xs
      → ((each body l s).0 ≡ (each_item body (map (λ e. e.1) xs) s).0)
        × Holds (each body l s).1 (each_item body (map (λ e. e.1) xs) s).1
  unfolding each advance_iterator
  each_cells body l s xs is =
      let r =
        run_lem (suc l.num_partitions) body l.heap l.head (new_iterator l) xs s
          (omega (arith, is.count)) refl is.chain in
      (
        ap (λ z. z.0) r.state,
        (
          r.cells,
          record {
            chain = r.chain;
            below = below-places l.fresh r.cells xs r.places is.below;
            count = is.count ∙ sym (length-places r.cells xs r.places);
          },
          ap (λ z. z.1) r.state,
        ),
      )

  -- A loop over the iterator of a linked list, whose body may change the partition at hand and may
  -- break, ends within one round more than there are partitions, with the state that the same body
  -- has over the plain list of the partitions, and with the linked list holding the partitions of
  -- that run.
  pub each_lem :
      (body : S → P → Turn S × P) (l : PartitionList P) (s : S) (ps : List P)
      → Holds l ps
      → ((each body l s).0 ≡ (each_item body ps s).0)
        × Holds (each body l s).1 (each_item body ps s).1
  each_lem body l s ps (xs, is, e) =
      subst
        (λ qs.
          ((each body l s).0 ≡ (each_item body qs s).0)
          × Holds (each body l s).1 (each_item body qs s).1)
        e (each_cells body l s xs is)
