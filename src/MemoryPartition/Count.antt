-- ===== src/MemoryPartition/Count.antt =====
-- No row is lost by `insertRows` of a partition in memory: it is counted or given back.
use mathlib.Core.Path.{subst}
use mathlib.Core.Option.{some-injective, some-ne-none}
use tstorage.Base.{ℕ, suc, ◌+◌, ◌≡◌, sym, Bool}
use tstorage.Base.{
  List, [], ◌∷◌, some, Option-cases, length, length-append, arith, Bool-cases, inl, inr,
}
use tstorage.Words.{slt}
use tstorage.Rows.{DataPoint, Label, Row}
use tstorage.MemoryMetric.{MemoryMetric, insert_point}
use tstorage.MemoryPartition.{Metrics, Progress, store_point, store_row, insert_row, insert_loop}

store_point-count :
    (name : List ℕ) (p : DataPoint) (s s' : Progress) (g : MemoryMetric × Metrics)
    → store_point name p s g ≡ some s'
    → s'.count + length s'.outdated ≡ suc (s.count + length s.outdated)
store_point-count name p s s' (m, metrics) e = elim (Option-cases (insert_point m p)) [
  | inl f ↦ absurd (some-ne-none _ (sym (rw (store_point, f) at e)))
  | inr (m', f) ↦
      let same = some-injective _ _ (rw (store_point, f) at e) in
      subst (λ z. z.count + length z.outdated ≡ suc (s.count + length s.outdated)) same
        (omega arith)
]

module _ (name_of : List ℕ → List Label → List ℕ) (clock : ℕ → ℕ) (append : List Row → Bool) where
  insert_row-count :
      (lo i : ℕ) (r : Row) (s s' : Progress)
      → insert_row name_of clock append lo i r s ≡ some s'
      → s'.count + length s'.outdated ≡ suc (s.count + length s.outdated)
  unfolding insert_row store_row
  insert_row-count lo i r s s' e = elim (Bool-cases (slt r.point.timestamp lo)) [
    | inl old ↦
        let same = some-injective _ _ (rw old at e) in
        subst (λ z. z.count + length z.outdated ≡ suc (s.count + length s.outdated)) same
          (omega (arith, length-append s.outdated (r ∷ [])))
    | inr new ↦ store_point-count _ _ s s' _ (rw new at e)
  ]

  pub insert_loop-count :
      (lo i : ℕ) (rs : List Row) (s s' : Progress)
      → insert_loop name_of clock append lo i rs s ≡ some s'
      → s'.count + length s'.outdated ≡ length rs + (s.count + length s.outdated)
  unfolding insert_loop
  insert_loop-count lo i [] s s' e =
      subst (λ z. z.count + length z.outdated ≡ 0 + (s.count + length s.outdated))
        (some-injective _ _ e) (omega arith)
  insert_loop-count lo i (r ∷ rs) s s' e =
      elim (Option-cases (insert_row name_of clock append lo i r s)) [
        | inl f ↦ absurd (some-ne-none _ (sym (rw (insert_loop, f) at e)))
        | inr (t, f) ↦ omega (
          arith,
          insert_loop-count lo (suc i) rs t s' (rw (insert_loop, f) at e),
          insert_row-count lo i r s t f,
        )
      ]
