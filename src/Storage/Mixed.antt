-- ===== src/Storage/Mixed.antt =====
-- `Select` over partitions that lie behind each other, in memory or on disk: each one is told by the
-- points that it has for the selection.
use tstorage.Base.{
  ℕ, ◌<◌, ◌≡◌, refl, sym, ap, ◌∙◌, false, ◌==◌, if◌then◌else◌, Bool-cases, inl, inr, ◌⊎◌,
}
use tstorage.Base.{List, [], ◌∷◌, ◌++◌, append-nil, map, All, All-map, IsOrdered, ◌≢◌, arith}
use tstorage.Base.{ltb→lt, leb→gt, gt→leb}
use tstorage.Words.{slt, sle, biased}
use tstorage.Rows.{DataPoint, Label}
use tstorage.Partition.{Partition, min_timestamp, max_timestamp, Answer, points, nothing}
use tstorage.PartitionList.Changes.{Holds}
use tstorage.Storage.{Storage, Selecting, so_far, select_result, select}
use tstorage.Storage.Query.{
  asked, joined, answer_of, asked-stop, asked-skip, asked-take, joined-points, select_lem,
}
use tstorage.Storage.Windows.{if-nil}

-- A partition with what it has.
abbrev pub Told : Type 0
Told = Partition × List DataPoint

-- The newer partition starts and ends behind the end of the older one, if it has rows.
abbrev pub IsLater : Told → Told → Type 0
IsLater (p, xs) (q, ys) =
    (min_timestamp p == 0) ≡ false
    → (biased (max_timestamp q) < biased (min_timestamp p))
      × (biased (max_timestamp q) < biased (max_timestamp p))

-- What all partitions have, oldest first; one without rows is skipped.
abbrev pub told_points : List Told → List DataPoint
told_points [] = []
told_points ((p, xs) ∷ es) = told_points es ++ (if min_timestamp p == 0 then [] else xs)

module _ (name_of : List ℕ → List Label → List ℕ) (now : ℕ) (metric : List ℕ) (labels : List Label)
    (start end : ℕ) where
  -- The partition answers with what it has, all of which is in the partition and in the range.
  pub record Gives (e : Told) : Type 0 where
    pub answers :
        (answer_of name_of now metric labels start end e.0 ≡ points e.1)
        ⊎ ((answer_of name_of now metric labels start end e.0 ≡ nothing) × (e.1 ≡ []))
    pub after : biased end < biased (min_timestamp e.0) → e.1 ≡ []
    pub before : biased (max_timestamp e.0) < biased start → e.1 ≡ []

  told_points-before :
      (es : List Told)
      → All Gives es
      → All (λ e. biased (max_timestamp e.0) < biased start) es
      → told_points es ≡ []
  told_points-before [] g h = refl
  told_points-before ((p, xs) ∷ es) (g, gs) (lt, h) =
      rw (told_points-before es gs h, g.before lt) (if-nil (min_timestamp p == 0) [] refl)

  -- An answer in front of the others.
  answer-joined :
      (p : Partition) (xs qs : List DataPoint) (answers : List Answer)
      → Gives (p, xs)
      → joined answers ≡ so_far qs
      → joined (answer_of name_of now metric labels start end p ∷ answers) ≡ so_far (qs ++ xs)
  answer-joined p xs qs answers g e = go g.answers
    where
      go :
          (answer_of name_of now metric labels start end p ≡ points xs)
            ⊎ ((answer_of name_of now metric labels start end p ≡ nothing) × (xs ≡ []))
          → joined (answer_of name_of now metric labels start end p ∷ answers) ≡ so_far (qs ++ xs)
      go (inl a) = ap (λ z. joined (z ∷ answers)) a ∙ joined-points answers xs qs e
      go (inr (a, nil)) =
          ap (λ z. joined (z ∷ answers)) a
          ∙ e
          ∙ ap so_far (sym (append-nil qs) ∙ ap (λ z. qs ++ z) (sym nil))

  pub joined-told_points :
      (es : List Told)
      → All Gives es
      → IsOrdered IsLater es
      → joined (
          map (answer_of name_of now metric labels start end) (asked start end (map (λ e. e.0) es)))
        ≡ so_far (told_points es)
  joined-told_points [] g o = refl
  joined-told_points ((p, xs) ∷ es) (g, gs) (b, o) =
      let ps = map (λ e. e.0) es in
      let answers : List Partition → Selecting =
        λ k. joined (map (answer_of name_of now metric labels start end) k) in
      let ih = joined-told_points es gs o in
      elim (Bool-cases (min_timestamp p == 0)) [
        | inl empty ↦
            ap answers (asked-skip start end p ps (rw empty refl) (rw empty refl))
            ∙ ih
            ∙ rw empty (ap so_far (sym (append-nil _)))
        | inr full ↦ elim (Bool-cases (slt (max_timestamp p) start)) [
          | inl older ↦
              let all_older =
                told_points-before es gs (All-map (λ q w. ground (arith, w full, older)) es b) in
              ap answers (asked-stop start end p ps (rw (full, older) refl))
              ∙ ap so_far (
                  sym (
                    rw (all_older, g.before (ltb→lt _ _ older))
                      (if-nil (min_timestamp p == 0) [] refl)))
          | inr newer ↦ elim (Bool-cases (sle (min_timestamp p) end)) [
            | inl inside ↦
                ap answers
                  (asked-take start end p ps (rw (full, newer) refl) (rw (full, inside) refl))
                ∙ answer-joined p xs (told_points es)
                    (map (answer_of name_of now metric labels start end) (asked start end ps)) g ih
                ∙ rw full refl
            | inr after ↦
                ap answers
                  (asked-skip start end p ps (rw (full, newer) refl) (rw (full, after) refl))
                ∙ ih
                ∙ ap so_far (sym (rw (full, g.after (leb→gt _ _ after)) (append-nil _)))
          ]
        ]
      ]

module _ {W : Type 0} (name_of : List ℕ → List Label → List ℕ) (now : ℕ) where
  -- Select, for a nonempty metric and start before end, on partitions that lie behind each other and
  -- each of which answers with what it has, gives what all of them have, oldest first.
  pub select-told_points :
      (s : Storage W) (es : List Told) (metric : List ℕ) (labels : List Label) (start end : ℕ)
      → Holds s.partition_list (map (λ e. e.0) es)
      → All (Gives name_of now metric labels start end) es
      → IsOrdered IsLater es
      → metric ≢ []
      → biased start < biased end
      → (select name_of now s metric labels start end).0 ≡ select_result (so_far (told_points es))
  select-told_points s es [] labels start end h g o named lt = absurd (named refl)
  select-told_points s es (c ∷ metric) labels start end h g o named lt =
      let good : sle end start ≡ false = gt→leb _ _ lt in
      select_lem name_of now s (map (λ e. e.0) es) (c ∷ metric) labels start end h
      ∙ rw good
          (ap select_result (joined-told_points name_of now (c ∷ metric) labels start end es g o))
