-- ===== src/PartitionList/Chain.antt =====
-- What a list in the heap holds, and which changes of the heap leave it.
use tstorage.Base.{ℕ, ◌≡◌, refl, Bool, false, ◌||◌, ◌==◌}
use tstorage.Base.{List, [], ◌∷◌, ◌++◌, Option, none, some, All, arith}
use tstorage.PartitionList.{Node, Heap, node, write}

-- The nodes of a list: their addresses and partitions, in order.
abbrev pub Cells : Type 0 → Type 0
Cells P = List (ℕ × P)

module _ {P : Type 0} where
  abbrev pub has : ℕ → Cells P → Bool
  has a [] = false
  has a ((b, v) ∷ xs) = (a == b) || has a xs

  -- From `p` the next pointers lead through the distinct nodes `xs` to nil.
  abbrev pub IsChain : Heap P → Option ℕ → Cells P → Type 0
  IsChain h p [] = p ≡ none
  IsChain h p ((a, v) ∷ xs) =
      (p ≡ some a)
      × ((q : Option ℕ) × (h a ≡ some (node v q)) × (has a xs ≡ false) × IsChain h q xs)

  pub has-append : (a : ℕ) (xs ys : Cells P) → has a (xs ++ ys) ≡ (has a xs || has a ys)
  has-append a [] ys = refl
  has-append a ((b, v) ∷ xs) ys = ground (arith, has-append a xs ys)

  -- A chain survives a write outside of it.
  pub IsChain-write :
      (h : Heap P) (b : ℕ) (c : Node P) (p : Option ℕ) (xs : Cells P)
      → IsChain h p xs
      → has b xs ≡ false
      → IsChain (write h b c) p xs
  unfolding write
  IsChain-write h b c p [] s out = s
  IsChain-write h b c p ((a, v) ∷ xs) (e, (q, at, apart, s)) out =
      (e, (q, ground (arith, at, out), apart, IsChain-write h b c q xs s (ground (arith, out))))

  -- The cells behind `front` have none of its addresses.
  abbrev pub Apart : Cells P → Cells P → Type 0
  Apart front rest = All (λ e. has e.0 rest ≡ false) front

  pub IsChain-Apart :
      (h : Heap P) (p : Option ℕ) (front rest : Cells P)
      → IsChain h p (front ++ rest)
      → Apart front rest
  IsChain-Apart h p [] rest s = tt
  IsChain-Apart h p ((a, v) ∷ front) rest (e, (q, at, apart, s)) =
      (ground (arith, apart, has-append a front rest), IsChain-Apart h q front rest s)

  -- The next pointer of the last cell of a front is moved to another chain.
  pub IsChain-relink :
      (h : Heap P) (p q : Option ℕ) (front : Cells P) (b : ℕ) (w : P) (rest rest' : Cells P)
      → IsChain h p (front ++ (b, w) ∷ rest)
      → IsChain h q rest'
      → Apart (front ++ (b, w) ∷ []) rest'
      → IsChain (write h b (node w q)) p (front ++ (b, w) ∷ rest')
  unfolding write
  IsChain-relink h p q [] b w rest rest' (e, (r, at, out, s)) t (apart, more) =
      (e, (q, ground arith, apart, IsChain-write h b (node w q) q rest' t apart))
  IsChain-relink h p q ((a, v) ∷ front) b w rest rest' (e, (r, at, out, s)) t (apart, more) = (
    e,
    (
      r,
      ground (arith, at, out, has-append a front ((b, w) ∷ rest)),
      ground (
        arith,
        out,
        apart,
        has-append a front ((b, w) ∷ rest),
        has-append a front ((b, w) ∷ rest'),
      ),
      IsChain-relink h r q front b w rest rest' s t more,
    ),
  )
