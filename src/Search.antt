-- ===== src/Search.antt =====
-- sort.Search of the standard library, which memory_partition.go calls: the binary search for the
-- first index at which a test holds. A test that ends in a panic is `none`.
use tstorage.Base.{ℕ, zero, suc, ◌+◌, ◌/◌, ◌≤◌, ◌<◌, ◌≡◌, ap, Bool, true, false, arith}
use tstorage.Base.{Option, none, some, ltb, if◌then◌else◌, Bool-cases, ltb→lt, ltb→ge, inl, inr}

-- The loop on i and j; each turn makes j - i smaller, so j - i turns are enough.
pub search_loop : ℕ → (ℕ → Option Bool) → ℕ → ℕ → Option ℕ
search_loop zero f i j = some i
search_loop (suc n) f i j =
    let h = (i + j) / 2 in
    let turn : Option ℕ = elim (f h) [
      | none ↦ none
      | some true ↦ search_loop n f i h
      | some false ↦ search_loop n f (h + 1) j
    ] in
    if ltb i j then turn else some i

unfoldable pub search : ℕ → (ℕ → Option Bool) → Option ℕ
search n f = search_loop n f 0 n

-- The test is false below `k` and true from `k` up to `n`.
pub record IsThreshold (f : ℕ → Option Bool) (k n : ℕ) : Type 0 where
  pub low : (x : ℕ) → x < k → f x ≡ some false
  pub high : (x : ℕ) → k ≤ x → x < n → f x ≡ some true

search_loop_lem :
    (fuel : ℕ) {f : ℕ → Option Bool} {k n : ℕ} (i j : ℕ)
    → IsThreshold f k n
    → i ≤ k
    → k ≤ j
    → j ≤ n
    → j ≤ i + fuel
    → search_loop fuel f i j ≡ some k
unfolding search_loop
search_loop_lem zero i j t lo hi top enough = ap some (omega arith)
search_loop_lem (suc fuel) {f} {k} {n} i j t lo hi top enough = elim (Bool-cases (ltb i j)) [
  | inr stop ↦ rw stop (ap some (omega (arith, ltb→ge i j stop)))
  | inl go ↦
      let below : i < j = ltb→lt i j go in
      elim (Bool-cases (ltb ((i + j) / 2) k)) [
        | inl low ↦
            let lt = ltb→lt _ _ low in
            rw (go, t.low ((i + j) / 2) lt)
              (search_loop_lem fuel ((i + j) / 2 + 1) j t (omega arith) hi top (omega arith))
        | inr high ↦
            let ge = ltb→ge _ _ high in
            rw (go, t.high ((i + j) / 2) ge (omega arith))
              (search_loop_lem fuel i ((i + j) / 2) t lo ge (omega arith) (omega arith))
      ]
]

-- The search finds the threshold.
pub search_lem : {f : ℕ → Option Bool} {k n : ℕ} → IsThreshold f k n → k ≤ n → search n f ≡ some k
unfolding search
search_lem {n = n} t le = search_loop_lem n 0 n t (omega arith) le (omega arith) (omega arith)
