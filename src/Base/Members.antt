-- ===== src/Base/Members.antt =====
-- A property of all elements does not depend on their order.
use mathlib.Core.Path.{subst, sym}
use mathlib.Core.Logic.Or
use mathlib.Core.List.{
  List, [], ◌∷◌, Mem, Perm, mem-cons, mem-cons_self, mem-cons_of_mem, not-mem-nil,
}
use mathlib.Core.List.Perm
use tstorage.Base.Lists.{All}

module _ {ℓ κ} {A : Type ℓ} (P : A → Type κ) where
  All-mem : ((a : A) → IsProp (P a)) → (xs : List A) (a : A) → All P xs → Mem a xs → P a
  All-mem prop [] a h m = absurd (not-mem-nil m)
  All-mem prop (x ∷ xs) a (h, hs) m =
      Or.elim (prop a) (mem-cons.0 m) (λ e. subst P (sym e) h) (All-mem prop xs a hs)

  mem-All : (xs : List A) → ((a : A) → Mem a xs → P a) → All P xs
  mem-All [] h = tt
  mem-All (x ∷ xs) h = (h x mem-cons_self, mem-All xs (λ a m. h a (mem-cons_of_mem x m)))

  pub All-Perm : ((a : A) → IsProp (P a)) → (xs ys : List A) → Perm xs ys → All P xs → All P ys
  All-Perm prop xs ys p h = mem-All ys (λ a m. All-mem prop xs a h (Perm.subset (Perm.symm p) a m))
