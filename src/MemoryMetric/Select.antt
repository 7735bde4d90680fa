-- ===== src/MemoryMetric/Select.antt =====
-- Selecting the points of a range: the binary searches and the slice.
use tstorage.Base.{ℕ, zero, suc, ◌≤◌, ◌<◌, ◌≡◌, refl, sym, ap, ◌∙◌, Bool, true, false}
use tstorage.Base.{if◌then◌else◌, List, [], ◌∷◌, some, length, arith, ◌&&◌}
use tstorage.Base.{All, All-map, IsOrdered, Bool-cases, inl, inr, take, drop, filter, filter-none}
use tstorage.Base.{ltb, leb, ltb→lt, ltb→ge, leb→le, leb→gt, lt→ltb, ge→ltb, le→leb, gt→leb, slice}
use tstorage.Words.{slt, sle, biased}
use tstorage.Rows.{DataPoint}
use tstorage.Search.{IsThreshold, search_lem}
use tstorage.MemoryMetric.{MemoryMetric, reaches, start_index, end_index, select_points}
use tstorage.MemoryMetric.Valid.{place, IsBefore, IsValid}

-- How many points come before the first whose place is at least `k`.
abbrev pub count_below : ℕ → List DataPoint → ℕ
count_below k [] = 0
count_below k (p ∷ ps) = let n = count_below k ps in if ltb (place p) k then suc n else 0

count_below_le : (k : ℕ) (ps : List DataPoint) → count_below k ps ≤ length ps
count_below_le k [] = omega arith
count_below_le k (p ∷ ps) = ground (arith, count_below_le k ps)

pub count_below-All :
    (k : ℕ) (ps : List DataPoint) → All (λ p. place p < k) ps → count_below k ps ≡ length ps
count_below-All k [] h = refl
count_below-All k (p ∷ ps) (lt, h) = rw (lt→ltb (place p) k lt) (ap suc (count_below-All k ps h))

count_below-none : (k : ℕ) (ps : List DataPoint) → All (λ p. k ≤ place p) ps → count_below k ps ≡ 0
count_below-none k [] h = refl
count_below-none k (p ∷ ps) (ge, h) = rw (ge→ltb (place p) k ge) refl

below_lem :
    (bound : ℕ) (ps : List DataPoint) (x : ℕ)
    → x < count_below (biased bound) ps
    → reaches ps bound x ≡ some false
unfolding reaches
below_lem bound [] x h = absurd (omega arith)
below_lem bound (p ∷ ps) zero h = ap some (gt→leb _ _ (ground (arith, h)))
below_lem bound (p ∷ ps) (suc x) h = below_lem bound ps x (ground (arith, h))

above-All :
    (bound : ℕ) (ps : List DataPoint) (x : ℕ)
    → All (λ p. biased bound ≤ place p) ps
    → x < length ps
    → reaches ps bound x ≡ some true
unfolding reaches
above-All bound [] x h lt = absurd (omega arith)
above-All bound (p ∷ ps) zero (h, hs) lt = ap some (le→leb _ _ h)
above-All bound (p ∷ ps) (suc x) (h, hs) lt = above-All bound ps x hs (omega arith)

above_lem :
    (bound : ℕ) (ps : List DataPoint) (x : ℕ)
    → IsOrdered IsBefore ps
    → count_below (biased bound) ps ≤ x
    → x < length ps
    → reaches ps bound x ≡ some true
unfolding reaches
above_lem bound [] x o h lt = absurd (omega arith)
above_lem bound (p ∷ ps) zero (b, o) h lt =
    above-All bound (p ∷ ps) zero (ground (arith, h), All-map (λ q l. ground (arith, h, l)) ps b) lt
above_lem bound (p ∷ ps) (suc x) (b, o) h lt = elim (Bool-cases (ltb (place p) (biased bound))) [
  | inl low ↦ above_lem bound ps x o (ground (arith, h, low)) (omega arith)
  | inr high ↦
      let ge = ltb→ge _ _ high in
      above-All bound (p ∷ ps) (suc x) (ge, All-map (λ q l. omega arith) ps b) lt
]

threshold :
    (bound : ℕ) (ps : List DataPoint)
    → IsOrdered IsBefore ps
    → IsThreshold (reaches ps bound) (count_below (biased bound) ps) (length ps)
threshold bound ps o = record {
  low = λ x h. below_lem bound ps x h;
  high = λ x h lt. above_lem bound ps x o h lt;
}

-- The points whose places are from `lo` up to `hi`, exclusive.
abbrev pub in_places : ℕ → ℕ → DataPoint → Bool
in_places lo hi p = leb lo (place p) && ltb (place p) hi

window_lem :
    (lo hi : ℕ) (ps : List DataPoint)
    → IsOrdered IsBefore ps
    → lo ≤ hi
    → drop (count_below lo ps) (take (count_below hi ps) ps) ≡ filter (in_places lo hi) ps
window_lem lo hi [] o le = refl
window_lem lo hi (p ∷ ps) (b, o) le = elim (Bool-cases (ltb (place p) lo)) [
  | inl low ↦
      let lt = ltb→lt _ _ low in
      rw (low, lt→ltb (place p) hi (omega arith), gt→leb lo (place p) lt) (window_lem lo hi ps o le)
  | inr high ↦
      let ge = ltb→ge _ _ high in
      elim (Bool-cases (ltb (place p) hi)) [
        | inl inside ↦
            rw (high, inside, le→leb lo (place p) ge)
              (ap (◌∷◌ p) (
                ap (λ n. drop n (take (count_below hi ps) ps))
                  (sym (count_below-none lo ps (All-map (λ q l. omega arith) ps b)))
                ∙ window_lem lo hi ps o le))
        | inr beyond ↦
            let top = ltb→ge _ _ beyond in
            rw (high, beyond, le→leb lo (place p) ge)
              (sym (filter-none _ ps (All-map (λ q l. ground (arith, l, top)) ps b)))
      ]
]

count_below_mono :
    (lo hi : ℕ) (ps : List DataPoint) → lo ≤ hi → count_below lo ps ≤ count_below hi ps
count_below_mono lo hi [] le = omega arith
count_below_mono lo hi (p ∷ ps) le = ground (arith, count_below_mono lo hi ps le)

slice_lem :
    (lo hi : ℕ) (ps : List DataPoint)
    → IsOrdered IsBefore ps
    → lo ≤ hi
    → slice (count_below lo ps) (count_below hi ps) ps ≡ some (filter (in_places lo hi) ps)
slice_lem lo hi ps o le =
    rw (le→leb _ _ (count_below_mono lo hi ps le), le→leb _ _ (count_below_le hi ps))
      (ap some (window_lem lo hi ps o le))

-- The place below which a selection ends. An `end` equal to the highest timestamp counts as one more.
abbrev pub upper : MemoryMetric → ℕ → ℕ
upper m end =
    if slt m.min_timestamp end && sle m.max_timestamp end then suc (biased end) else biased end

module _ (m : MemoryMetric) (v : IsValid m) where
  start_index_lem : (start : ℕ) → start_index m start ≡ some (count_below (biased start) m.points)
  unfolding start_index
  start_index_lem start = elim (Bool-cases (sle start m.min_timestamp)) [
    | inl le ↦
        let le' = leb→le _ _ le in
        rw le (
          ap some (
            sym (
              count_below-none (biased start) m.points
                (All-map (λ q w. omega (arith, w.0)) m.points v.within))))
    | inr gt ↦
        rw (gt, v.size)
          (search_lem (threshold start m.points v.ordered) (count_below_le (biased start) m.points))
  ]

  pub end_index_lem :
      (end : ℕ)
      → slt m.min_timestamp end ≡ true
      → end_index m end ≡ some (count_below (upper m end) m.points)
  unfolding end_index
  end_index_lem end lt = elim (Bool-cases (sle m.max_timestamp end)) [
    | inl le ↦
        let le' = leb→le _ _ le in
        rw (lt, le)
          (ap some (
            v.size
            ∙ sym (
                count_below-All (suc (biased end)) m.points
                  (All-map (λ q w. omega (arith, w.1)) m.points v.within))))
    | inr gt ↦
        rw (lt, gt, v.size)
          (search_lem (threshold end m.points v.ordered) (count_below_le (biased end) m.points))
  ]

  -- On a valid metric and for start at or before end, the two binary searches and the slice give,
  -- without a panic, exactly the points from start up to a bound, in order: the bound is end,
  -- excluded, or end included where end is at or above the highest timestamp and above the lowest.
  pub select_points_lem :
      (start end : ℕ)
      → biased start ≤ biased end
      → select_points m start end ≡ some (filter (in_places (biased start) (upper m end)) m.points)
  unfolding select_points
  select_points_lem start end le = elim (Bool-cases (sle end m.min_timestamp)) [
    | inl before ↦
        let low = leb→le _ _ before in
        let not_above : slt m.min_timestamp end ≡ false = ge→ltb _ _ low in
        rw (before, not_above)
          (ap some (
            sym (
              filter-none _ m.points
                (All-map (λ q w. ground (arith, low, w.0)) m.points v.within))))
    | inr above ↦
        let gt = leb→gt _ _ above in
        let lt : slt m.min_timestamp end ≡ true = lt→ltb _ _ gt in
        rw (above, start_index_lem start, end_index_lem end lt)
          (slice_lem (biased start) (upper m end) m.points v.ordered (ground arith))
  ]
