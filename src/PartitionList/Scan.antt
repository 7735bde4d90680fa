-- ===== src/PartitionList/Scan.antt =====
-- The search of `remove` and `swap`, and the loop over the iterator.
use tstorage.Base.{ℕ, zero, suc, ◌<◌, ◌≡◌, refl, sym, ap, ◌∙◌, Bool, true, false}
use mathlib.Core.Path.{subst}
use tstorage.Base.{
  append-nil, [], ◌∷◌, ◌++◌, append_assoc, Option, none, some, length, map, All, arith, Bool-cases,
  inl, inr, ◌⊎◌,
}
use tstorage.PartitionList.{Heap, node, Iterator, dummy, current}
use tstorage.PartitionList.{advance_iterator, Found, missing, found, scan, visit}
use tstorage.PartitionList.Chain.{Cells, IsChain}

module _ {P : Type 0} where
  -- `prev` is the address of the last of the cells.
  abbrev pub IsPrev : Option ℕ → Cells P → Type 0
  IsPrev none front = front ≡ []
  IsPrev (some b) front = (init : Cells P) × (w : P) × (front ≡ init ++ (b, w) ∷ [])

  -- The first of the cells `xs`, behind the cells `pre`, that passes the test.
  pub record Finds (test : P → Bool) (h : Heap P) (pre xs : Cells P) (r : Found P) : Type 0 where
    pub skipped : Cells P
    pub prev : Option ℕ
    pub at : ℕ
    pub val : P
    pub next : Option ℕ
    pub back : Cells P
    pub split : xs ≡ skipped ++ (at, val) ∷ back
    pub failing : All (λ e. test e.1 ≡ false) skipped
    pub passing : test val ≡ true
    pub gives : r ≡ found prev (node val next) (current (some at))
    pub before : IsPrev prev (pre ++ skipped)
    pub cell : h at ≡ some (node val next)
    pub rest : IsChain h next back

  abbrev pub Misses : (P → Bool) → Cells P → Found P → Type 0
  Misses test xs r = All (λ e. test e.1 ≡ false) xs × (r ≡ missing)

  -- One cell that does not pass is skipped.
  behind :
      {test : P → Bool} {h : Heap P} {pre xs : Cells P} {r : Found P} {a : ℕ} {v : P}
      → test v ≡ false
      → Misses test xs r ⊎ Finds test h (pre ++ (a, v) ∷ []) xs r
      → Misses test ((a, v) ∷ xs) r ⊎ Finds test h pre ((a, v) ∷ xs) r
  behind miss (inl (all, e)) = inl ((miss, all), e)
  behind {pre} {a} {v} miss (inr f) = inr (record {
    skipped = (a, v) ∷ f.skipped;
    prev = f.prev;
    at = f.at;
    val = f.val;
    next = f.next;
    back = f.back;
    split = ap (◌∷◌ (a, v)) f.split;
    failing = (miss, f.failing);
    passing = f.passing;
    gives = f.gives;
    before = subst (IsPrev f.prev) (append_assoc pre ((a, v) ∷ []) f.skipped) f.before;
    cell = f.cell;
    rest = f.rest;
  })

  scan_loop_lem :
      (k : ℕ) (test : P → Bool) (h : Heap P) (prev p : Option ℕ) (it : Iterator) (pre xs : Cells P)
      → length xs < k
      → advance_iterator h it ≡ current p
      → IsChain h p xs
      → IsPrev prev pre
      → Misses test xs (scan k test h prev it) ⊎ Finds test h pre xs (scan k test h prev it)
  unfolding scan advance_iterator
  scan_loop_lem zero test h prev p it pre xs lt e s is = absurd (omega arith)
  scan_loop_lem (suc k) test h prev p it pre [] lt e s is = inl (tt, rw (scan, e, s) refl)
  scan_loop_lem (suc k) test h prev p it pre ((a, v) ∷ xs) lt e (e', (q, at, out, s)) is =
      elim (Bool-cases (test v)) [
        | inl hit ↦ inr (record {
          skipped = [];
          prev = prev;
          at = a;
          val = v;
          next = q;
          back = xs;
          split = refl;
          failing = tt;
          passing = hit;
          gives =
              rw (scan, e ∙ ap current e', at, hit)
                (ap (found prev (node v q)) (e ∙ ap current e'));
          before = subst (IsPrev prev) (sym (append-nil pre)) is;
          cell = at;
          rest = s;
        })
        | inr miss ↦
            let step : scan (suc k) test h prev it ≡ scan k test h (some a) (current (some a)) =
              rw (scan, e ∙ ap current e', at, miss)
                (ap (scan k test h (some a)) (e ∙ ap current e')) in
            subst (λ r. Misses test ((a, v) ∷ xs) r ⊎ Finds test h pre ((a, v) ∷ xs) r) (sym step)
              (behind miss (
                scan_loop_lem k test h (some a) q (current (some a)) (pre ++ (a, v) ∷ []) xs
                  (omega arith) (rw (advance_iterator, at) refl) s (pre, v, refl)))
      ]

  -- What a search from the head finds in a list of `num` cells.
  pub scan_lem :
      (test : P → Bool) (h : Heap P) (p : Option ℕ) (xs : Cells P)
      → IsChain h p xs
      → Misses test xs (scan (suc (length xs)) test h none (dummy p))
        ⊎ Finds test h [] xs (scan (suc (length xs)) test h none (dummy p))
  scan_lem test h p xs s =
      scan_loop_lem (suc (length xs)) test h none p (dummy p) [] xs (omega arith)
        (unfold advance_iterator in refl) s refl

  visit_loop_lem :
      (k : ℕ) (h : Heap P) (p : Option ℕ) (it : Iterator) (xs : Cells P)
      → length xs < k
      → advance_iterator h it ≡ current p
      → IsChain h p xs
      → visit k h it ≡ map (λ e. e.1) xs
  unfolding visit advance_iterator
  visit_loop_lem zero h p it xs lt e s = absurd (omega arith)
  visit_loop_lem (suc k) h p it [] lt e s = rw (visit, e, s) refl
  visit_loop_lem (suc k) h p it ((a, v) ∷ xs) lt e (e', (q, at, out, s)) =
      rw (visit, e ∙ ap current e', at)
        (ap (λ i. v ∷ visit k h i) (e ∙ ap current e')
          ∙ ap (◌∷◌ v) (
              visit_loop_lem k h q (current (some a)) xs (omega arith)
                (rw (advance_iterator, at) refl) s))

  -- A loop over the iterator meets the partitions of the list, in order.
  pub visit_lem :
      (h : Heap P) (p : Option ℕ) (xs : Cells P)
      → IsChain h p xs
      → visit (suc (length xs)) h (dummy p) ≡ map (λ e. e.1) xs
  visit_lem h p xs s =
      visit_loop_lem (suc (length xs)) h p (dummy p) xs (omega arith)
        (unfold advance_iterator in refl) s
