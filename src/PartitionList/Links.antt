-- ===== src/PartitionList/Links.antt =====
-- Taking a node out of the list, and putting another in its place.
use mathlib.Core.Path.{subst}
use tstorage.Base.{ℕ, ◌+◌, ◌-◌, ◌<◌, ◌≡◌, refl, sym, ap, ◌∙◌}
use tstorage.Base.{
  [], ◌∷◌, ◌++◌, append_assoc, Option, none, some, length-append, All, All-map, arith,
}
use tstorage.PartitionList.{Heap, PartitionList, node, write, set_next}
use tstorage.PartitionList.{unlink, relink}
use tstorage.PartitionList.Chain.{
  Cells, IsChain, IsChain-write, Apart, IsChain-Apart, IsChain-relink,
}
use tstorage.PartitionList.Scan.{IsPrev}
use tstorage.PartitionList.Changes.{IsList, fresh_out}

-- The head of a list after the node `prev` is made to point to `q`.
abbrev after_head : Option ℕ → Option ℕ → Option ℕ → Option ℕ
after_head p none q = q
after_head p (some b) q = p

module _ {P : Type 0} where
  -- The heap after the node `prev` is made to point to `q`.
  abbrev after_heap : Heap P → Option ℕ → Option ℕ → Heap P
  after_heap h none q = h
  after_heap h (some b) q = set_next h b q

  cell_of :
      (h : Heap P) (p : Option ℕ) (front : Cells P) (b : ℕ) (w : P) (rest : Cells P)
      → IsChain h p (front ++ (b, w) ∷ rest)
      → (r : Option ℕ) × (h b ≡ some (node w r))
  cell_of h p [] b w rest (e, (r, at, out, s)) = (r, at)
  cell_of h p ((a, v) ∷ front) b w rest (e, (r, at, out, s)) = cell_of h r front b w rest s

  set_next_lem :
      (h : Heap P) (b : ℕ) (q r : Option ℕ) (w : P)
      → h b ≡ some (node w r)
      → set_next h b q ≡ write h b (node w q)
  unfolding set_next
  set_next_lem h b q r w e = rw (set_next, e) refl

  -- The cells behind `skipped` are exchanged for another chain, apart from `skipped`.
  exchange :
      (h : Heap P) (p prev q : Option ℕ) (skipped rest rest' : Cells P)
      → IsChain h p (skipped ++ rest)
      → IsPrev prev skipped
      → IsChain h q rest'
      → Apart skipped rest'
      → IsChain (after_heap h prev q) (after_head p prev q) (skipped ++ rest')
  exchange h p none q skipped rest rest' s e t apart =
      subst (λ k. IsChain h q (k ++ rest')) (sym e) t
  exchange h p (some b) q skipped rest rest' s (init, w, e) t apart =
      let s' =
        subst (IsChain h p) (ap (λ k. k ++ rest) e ∙ append_assoc init ((b, w) ∷ []) rest) s in
      let (r, at) = cell_of h p init b w rest s' in
      subst (λ k. IsChain (set_next h b q) p k)
        (sym (ap (λ k. k ++ rest') e ∙ append_assoc init ((b, w) ∷ []) rest'))
        (subst (λ g. IsChain g p (init ++ (b, w) ∷ rest')) (sym (set_next_lem h b q r w at))
          (IsChain-relink h p q init b w rest rest' s' t (subst (λ k. Apart k rest') e apart)))

  unlink-heap :
      (l : PartitionList P) (prev next : Option ℕ)
      → ((unlink l prev next).heap ≡ after_heap l.heap prev next)
        × ((unlink l prev next).head ≡ after_head l.head prev next)
        × ((unlink l prev next).fresh ≡ l.fresh)
        × ((unlink l prev next).num_partitions ≡ l.num_partitions)
  unfolding unlink
  unlink-heap l none next = (refl, refl, refl, refl)
  unlink-heap l (some b) none = (refl, refl, refl, refl)
  unlink-heap l (some b) (some a) = (refl, refl, refl, refl)

  relink-heap :
      (l : PartitionList P) (prev next : Option ℕ) (n : ℕ)
      → ((relink l prev next n).heap ≡ after_heap l.heap prev (some n))
        × ((relink l prev next n).head ≡ after_head l.head prev (some n))
        × ((relink l prev next n).fresh ≡ l.fresh)
        × ((relink l prev next n).num_partitions ≡ l.num_partitions)
  unfolding relink
  relink-heap l none next n = (refl, refl, refl, refl)
  relink-heap l (some b) none n = (refl, refl, refl, refl)
  relink-heap l (some b) (some a) n = (refl, refl, refl, refl)

  Apart-tail :
      (front : Cells P) (x : ℕ × P) (rest : Cells P) → Apart front (x ∷ rest) → Apart front rest
  Apart-tail front x rest h = All-map (λ e o. ground (arith, o)) front h

  All-take-out :
      (Q : ℕ × P → Type 0) (front : Cells P) (x : ℕ × P) (rest : Cells P)
      → All Q (front ++ x ∷ rest)
      → All Q (front ++ rest) × All Q front × All Q rest
  All-take-out Q [] x rest (h, hs) = (hs, tt, hs)
  All-take-out Q (y ∷ front) x rest (h, hs) =
      let (a, b, c) = All-take-out Q front x rest hs in ((h, a), (h, b), c)

  -- What a search finds in a list, its first node unlinked.
  pub unlink-IsList :
      (l : PartitionList P) (skipped back : Cells P) (at : ℕ) (val : P) (prev next : Option ℕ)
      → IsList l (skipped ++ (at, val) ∷ back)
      → IsPrev prev skipped
      → IsChain l.heap next back
      → IsList
          (record (unlink l prev next) { num_partitions = l.num_partitions - 1 })
          (skipped ++ back)
  unlink-IsList l skipped back at val prev next is before rest =
      let (eh, ep, ef, en) = unlink-heap l prev next in
      let apart =
        Apart-tail skipped (at, val) back
          (IsChain-Apart l.heap l.head skipped ((at, val) ∷ back) is.chain) in
      record {
        chain =
            rw (eh, ep)
              (exchange l.heap l.head prev next skipped ((at, val) ∷ back) back is.chain before rest
                apart);
        below = rw ef ((All-take-out _ skipped (at, val) back is.below).0);
        count =
            omega (
              arith,
              is.count,
              length-append skipped ((at, val) ∷ back),
              length-append skipped back,
            );
      }

  Apart-fresh :
      (n : ℕ) (new : P) (front rest : Cells P)
      → All (λ e. e.0 < n) front
      → Apart front rest
      → Apart front ((n, new) ∷ rest)
  Apart-fresh n new [] rest h k = tt
  Apart-fresh n new (x ∷ front) rest (lt, h) (o, k) =
      (ground (arith, lt, o), Apart-fresh n new front rest h k)

  All-put-in :
      (Q : ℕ × P → Type 0) (front : Cells P) (x : ℕ × P) (rest : Cells P)
      → Q x
      → All Q front
      → All Q rest
      → All Q (front ++ x ∷ rest)
  All-put-in Q [] x rest q h k = (q, k)
  All-put-in Q (y ∷ front) x rest q (h, hs) k = (h, All-put-in Q front x rest q hs k)

  -- The same with a new node in its place.
  pub relink-IsList :
      (l : PartitionList P) (skipped back : Cells P) (at : ℕ) (val new : P)
      (prev next next' : Option ℕ)
      → IsList l (skipped ++ (at, val) ∷ back)
      → IsPrev prev skipped
      → IsChain l.heap next back
      → IsList
          (relink
            (record l { heap = write l.heap l.fresh (node new next); fresh = l.fresh + 1 })
            prev
            next'
            l.fresh)
          (skipped ++ (l.fresh, new) ∷ back)
  relink-IsList l skipped back at val new prev next next' is before rest =
      let xs = skipped ++ (at, val) ∷ back in
      let h = write l.heap l.fresh (node new next) in
      let (eh, ep, ef, en) =
        relink-heap (record l { heap = h; fresh = l.fresh + 1 }) prev next' l.fresh in
      let out = fresh_out l.fresh xs is.below in
      let (all, front, tail) = All-take-out _ skipped (at, val) back is.below in
      let chain' = IsChain-write l.heap l.fresh (node new next) l.head xs is.chain out in
      let out' = fresh_out l.fresh back tail in
      let rest' : IsChain h (some l.fresh) ((l.fresh, new) ∷ back) = (
        refl,
        (
          next,
          unfold write in ground arith,
          out',
          IsChain-write l.heap l.fresh (node new next) next back rest out',
        ),
      ) in
      let apart = Apart-fresh l.fresh new skipped back front (
        Apart-tail skipped (at, val) back
          (IsChain-Apart l.heap l.head skipped ((at, val) ∷ back) is.chain)) in
      record {
        chain =
            rw (eh, ep)
              (exchange h l.head prev (some l.fresh) skipped ((at, val) ∷ back)
                ((l.fresh, new) ∷ back) chain' before rest' apart);
        below = rw ef (
            All-put-in _ skipped (l.fresh, new) back (omega arith)
              (All-map (λ e lt. omega arith) skipped front)
              (All-map (λ e lt. omega arith) back tail));
        count =
            en
            ∙ omega (
              arith,
              is.count,
              length-append skipped ((at, val) ∷ back),
              length-append skipped ((l.fresh, new) ∷ back),
            );
      }
