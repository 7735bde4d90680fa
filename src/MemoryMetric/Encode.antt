-- ===== src/MemoryMetric/Encode.antt =====
-- The order in which `encodeAllPoints` hands the points to the encoder.
use mathlib.Core.Path.{subst}
use mathlib.Core.List.{Perm, perm_middle}
use mathlib.Core.List.Perm
use tstorage.Base.{length, ap, ◌+◌, ◌≤◌, ◌≡◌, refl, sym, true, false, append-nil}
use tstorage.Base.{
  List, [], ◌∷◌, ◌++◌, Option, none, some, arith, All, All-map, All-append, IsOrdered,
  IsOrdered-map,
}
use tstorage.Base.{Bool-cases, inl, inr, ltb→lt, ltb→ge, Option-cases}
use tstorage.Words.{slt}
use tstorage.Rows.{DataPoint}
use tstorage.MemoryMetric.{MemoryMetric, encode_list, encode_merged, encode_all_points}
use tstorage.MemoryMetric.Valid.{place, IsValid}

abbrev pub IsUpTo : DataPoint → DataPoint → Type 0
IsUpTo p q = place p ≤ place q

-- The two lists in one, a late point before a point in order only if it is earlier.
unfoldable pub merged : List DataPoint → List DataPoint → List DataPoint
merged (q ∷ late) (p ∷ points) = elim (slt q.timestamp p.timestamp) [
  | true ↦ q ∷ merged late (p ∷ points)
  | false ↦ p ∷ merged (q ∷ late) points
]
merged late points = late ++ points

pub merged-Perm : (late points : List DataPoint) → Perm (merged late points) (late ++ points)
unfolding merged
merged-Perm [] points = Perm.refl points
merged-Perm (q ∷ late) [] = Perm.refl (q ∷ late ++ [])
merged-Perm (q ∷ late) (p ∷ points) = elim (Bool-cases (slt q.timestamp p.timestamp)) [
  | inl lt ↦ rw (lt, merged) (Perm.cons q (merged-Perm late (p ∷ points)))
  | inr ge ↦
      rw (ge, merged)
        (Perm.trans (Perm.cons p (merged-Perm (q ∷ late) points))
          (Perm.symm (perm_middle {a = p} (q ∷ late) points)))
]

pub length-merged :
    (late points : List DataPoint) → length (merged late points) ≡ length late + length points
unfolding merged
length-merged [] points = omega arith
length-merged (q ∷ late) [] = omega (arith, ap length (append-nil (q ∷ late)))
length-merged (q ∷ late) (p ∷ points) = elim (Bool-cases (slt q.timestamp p.timestamp)) [
  | inl lt ↦ rw (lt, merged) (omega (arith, length-merged late (p ∷ points)))
  | inr ge ↦ rw (ge, merged) (omega (arith, length-merged (q ∷ late) points))
]

merged-All :
    (P : DataPoint → Type 0) (late points : List DataPoint)
    → All P late
    → All P points
    → All P (merged late points)
unfolding merged
merged-All P [] points h k = k
merged-All P (q ∷ late) [] h k = All-append P (q ∷ late) [] h tt
merged-All P (q ∷ late) (p ∷ points) (h, hs) (k, ks) =
    elim (Bool-cases (slt q.timestamp p.timestamp)) [
      | inl lt ↦ rw (lt, merged) (h, merged-All P late (p ∷ points) hs (k, ks))
      | inr ge ↦ rw (ge, merged) (k, merged-All P (q ∷ late) points (h, hs) ks)
    ]

pub merged-IsOrdered :
    (late points : List DataPoint)
    → IsOrdered IsUpTo late
    → IsOrdered IsUpTo points
    → IsOrdered IsUpTo (merged late points)
unfolding merged
merged-IsOrdered [] points o o' = o'
merged-IsOrdered (q ∷ late) [] o o' = subst (IsOrdered IsUpTo) (sym (append-nil (q ∷ late))) o
merged-IsOrdered (q ∷ late) (p ∷ points) (b, o) (b', o') =
    elim (Bool-cases (slt q.timestamp p.timestamp)) [
      | inl lt ↦
          let le = ltb→lt _ _ lt in
          rw (lt, merged)
            (
              merged-All (IsUpTo q) late (p ∷ points) b
                  (omega arith, All-map (λ x l. omega arith) points b'),
              merged-IsOrdered late (p ∷ points) o (b', o'),
            )
      | inr ge ↦
          let le = ltb→ge _ _ ge in
          rw (ge, merged)
            (
              merged-All (IsUpTo p) (q ∷ late) points (le, All-map (λ x l. omega arith) late b) b',
              merged-IsOrdered (q ∷ late) points (b, o) o',
            )
    ]

-- What sort.Slice promises of the list that it sorts by timestamp.
pub record Sorts (sort : List DataPoint → List DataPoint) : Type 0 where
  pub ordered : (ps : List DataPoint) → IsOrdered IsUpTo (sort ps)
  pub same : (ps : List DataPoint) → Perm (sort ps) ps

module _ {S : Type 0} (encode : S → DataPoint → Option S) where
  encode_list-append :
      (s : S) (xs ys : List DataPoint)
      → encode_list encode s (xs ++ ys)
        ≡ elim (encode_list encode s xs) [ none ↦ none | some s' ↦ encode_list encode s' ys ]
  unfolding encode_list
  encode_list-append s [] ys = refl
  encode_list-append s (x ∷ xs) ys = elim (Option-cases (encode s x)) [
    | inl e ↦ rw e refl
    | inr (s', e) ↦ rw e (encode_list-append s' xs ys)
  ]

  pub encode_merged_lem :
      (s : S) (late points : List DataPoint)
      → encode_merged encode s late points ≡ encode_list encode s (merged late points)
  unfolding encode_merged encode_list merged
  encode_merged_lem s [] points = refl
  encode_merged_lem s (q ∷ late) [] = sym (encode_list-append s (q ∷ late) [])
  encode_merged_lem s (q ∷ late) (p ∷ points) = elim (Bool-cases (slt q.timestamp p.timestamp)) [
    | inl lt ↦ elim (Option-cases (encode s q)) [
      | inl e ↦ rw (lt, merged, encode_merged, encode_list, e) refl
      | inr (s', e) ↦
          rw (lt, merged, encode_merged, encode_list, e) (encode_merged_lem s' late (p ∷ points))
    ]
    | inr ge ↦ elim (Option-cases (encode s p)) [
      | inl e ↦ rw (ge, merged, encode_merged, encode_list, e) refl
      | inr (s', e) ↦
          rw (ge, merged, encode_merged, encode_list, e) (encode_merged_lem s' (q ∷ late) points)
    ]
  ]

  -- On a valid metric, and with a sort by timestamp that permutes its input, encodeAllPoints is the
  -- encoding of one list, up to the first error of the encoder: a permutation of the out-of-order
  -- points and the points, in the order of their timestamps.
  pub encode_all_points_lem :
      (sort : List DataPoint → List DataPoint) (s : S) (m : MemoryMetric)
      → Sorts sort
      → IsValid m
      → (ps : List DataPoint) × ((encode_all_points encode sort s m).0 ≡ encode_list encode s ps)
        × IsOrdered IsUpTo ps
        × Perm ps (m.out_of_order_points ++ m.points)
  unfolding encode_all_points
  encode_all_points_lem sort s m sorts v =
      let late = sort m.out_of_order_points in
      (
        merged late m.points,
        encode_merged_lem s late m.points,
        merged-IsOrdered late m.points (sorts.ordered _)
            (IsOrdered-map (λ x y l. omega arith) m.points v.ordered),
        Perm.trans (merged-Perm late m.points) (Perm.append_right m.points (sorts.same _)),
      )
