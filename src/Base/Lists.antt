-- ===== src/Base/Lists.antt =====
-- Lists measured and indexed by native numbers, under the library's names.
use Prim.Native.Nat.{ℕ, zero, suc, ◌+◌, ◌-◌, min}
use mathlib.Core.Path.{◌≡◌, refl, ap, ◌∙◌}
use mathlib.Core.List.{List, [], ◌∷◌, ◌++◌, map}
use mathlib.Core.Bool.{Bool, true, false, ◌&&◌}
use mathlib.Core.Logic.{inl, inr}
use tstorage.Base.Tests.{leb, if◌then◌else◌, Bool-cases}
use mathlib.Core.Option.{Option, none, some}
use native.Mathlib.Omega.{arith}

module _ {ℓ} {A : Type ℓ} where
  abbrev pub length : List A → ℕ
  length [] = 0
  length (x ∷ xs) = suc (length xs)

  abbrev pub get_elem? : List A → ℕ → Option A
  get_elem? [] i = none
  get_elem? (x ∷ xs) zero = some x
  get_elem? (x ∷ xs) (suc i) = get_elem? xs i

  abbrev pub take : ℕ → List A → List A
  take zero xs = []
  take (suc n) [] = []
  take (suc n) (x ∷ xs) = x ∷ take n xs

  abbrev pub drop : ℕ → List A → List A
  drop zero xs = xs
  drop (suc n) [] = []
  drop (suc n) (x ∷ xs) = drop n xs

  -- A write to the last place; an empty list stays empty.
  abbrev pub modify_last : (A → A) → List A → List A
  modify_last f [] = []
  modify_last f (x ∷ []) = f x ∷ []
  modify_last f (x ∷ y ∷ xs) = x ∷ modify_last f (y ∷ xs)

  abbrev pub All {κ} : (A → Type κ) → List A → Type κ
  All P [] = Unit {κ}
  All P (x ∷ xs) = P x × All P xs

module _ {ℓ} {A : Type ℓ} where
  pub length-append : (xs ys : List A) → length (xs ++ ys) ≡ length xs + length ys
  length-append [] ys = omega arith
  length-append (x ∷ xs) ys = omega (arith, length-append xs ys)

  pub take-append-drop : (n : ℕ) (xs : List A) → take n xs ++ drop n xs ≡ xs
  take-append-drop zero xs = refl
  take-append-drop (suc n) [] = refl
  take-append-drop (suc n) (x ∷ xs) = ap (◌∷◌ x) (take-append-drop n xs)

  pub length-take : (n : ℕ) (xs : List A) → length (take n xs) ≡ min n (length xs)
  length-take zero xs = omega arith
  length-take (suc n) [] = omega arith
  length-take (suc n) (x ∷ xs) = omega (arith, length-take n xs)

  pub length-drop : (n : ℕ) (xs : List A) → length (drop n xs) ≡ length xs - n
  length-drop zero xs = omega arith
  length-drop (suc n) [] = omega arith
  length-drop (suc n) (x ∷ xs) = omega (arith, length-drop n xs)

  pub drop-drop : (m n : ℕ) (xs : List A) → drop m (drop n xs) ≡ drop (n + m) xs
  drop-drop m zero xs = ap (λ k. drop k xs) {x = m} {y = zero + m} (omega arith)
  drop-drop zero (suc n) [] =
      ap (λ k. drop {A = A} k []) {x = suc n} {y = suc n + zero} (omega arith)
  drop-drop (suc m) (suc n) [] =
      ap (λ k. drop {A = A} k []) {x = suc (n + suc m)} {y = suc n + suc m} (omega arith)
  drop-drop m (suc n) (x ∷ xs) =
      drop-drop m n xs ∙ ap (λ k. drop k (x ∷ xs)) {x = suc (n + m)} {y = suc n + m} (omega arith)

  pub All-drop {κ} : (P : A → Type κ) (n : ℕ) (xs : List A) → All P xs → All P (drop n xs)
  All-drop P zero xs h = h
  All-drop P (suc n) [] h = h
  All-drop P (suc n) (x ∷ xs) (h, hs) = All-drop P n xs hs

  pub modify_last-append :
      (f : A → A) (xs : List A) (x : A) → modify_last f (xs ++ x ∷ []) ≡ xs ++ f x ∷ []
  modify_last-append f [] x = refl
  modify_last-append f (y ∷ []) x = refl
  modify_last-append f (y ∷ z ∷ xs) x = ap (◌∷◌ y) (modify_last-append f (z ∷ xs) x)

  -- Two ways to cut one list at the same length agree.
  pub append_inj :
      (xs ys us vs : List A) → length xs ≡ length ys → xs ++ us ≡ ys ++ vs → (xs ≡ ys) × (us ≡ vs)
  append_inj [] [] us vs n e = (refl, e)
  append_inj [] (y ∷ ys) us vs n e = absurd (omega arith)
  append_inj (x ∷ xs) [] us vs n e = absurd (omega arith)
  append_inj (x ∷ xs) (y ∷ ys) us vs n e =
      let cut : (xs ≡ ys) × (us ≡ vs) = append_inj xs ys us vs (omega arith) (cc) in
      (ap (◌∷◌ x) cut.0 ∙ ap (λ h. h ∷ ys) (cc), cut.1)

  pub All-append {κ} : (P : A → Type κ) (xs ys : List A) → All P xs → All P ys → All P (xs ++ ys)
  All-append P [] ys h k = k
  All-append P (x ∷ xs) ys (h, hs) k = (h, All-append P xs ys hs k)

module _ {ℓ} {A : Type ℓ} where
  abbrev pub filter : (A → Bool) → List A → List A
  filter test [] = []
  filter test (x ∷ xs) = if test x then x ∷ filter test xs else filter test xs

  -- Every element is related to those after it.
  abbrev pub IsOrdered {κ} : (A → A → Type κ) → List A → Type κ
  IsOrdered R [] = Unit {κ}
  IsOrdered R (x ∷ xs) = All (R x) xs × IsOrdered R xs

  pub All-map {κ κ'} :
      {P : A → Type κ} {Q : A → Type κ'}
      → ((x : A) → P x → Q x)
      → (xs : List A) → All P xs
      → All Q xs
  All-map f [] h = tt
  All-map f (x ∷ xs) (h, hs) = (f x h, All-map f xs hs)

  pub All-every {κ} : {P : A → Type κ} → ((x : A) → P x) → (xs : List A) → All P xs
  All-every h [] = tt
  All-every h (x ∷ xs) = (h x, All-every h xs)

  pub IsOrdered-append {κ} :
      (R : A → A → Type κ) (xs : List A) (y : A)
      → IsOrdered R xs
      → All (λ x. R x y) xs
      → IsOrdered R (xs ++ y ∷ [])
  IsOrdered-append R [] y o h = (tt, tt)
  IsOrdered-append R (x ∷ xs) y (b, o) (h, hs) =
      (All-append (R x) xs (y ∷ []) b (h, tt), IsOrdered-append R xs y o hs)

  pub IsOrdered-map {κ κ'} :
      {R : A → A → Type κ} {S : A → A → Type κ'}
      → ((x y : A) → R x y → S x y)
      → (xs : List A) → IsOrdered R xs
      → IsOrdered S xs
  IsOrdered-map f [] h = tt
  IsOrdered-map f (x ∷ xs) (b, o) = (All-map (f x) xs b, IsOrdered-map f xs o)

  pub filter-All :
      (test : A → Bool) (xs : List A) → All (λ x. test x ≡ true) xs → filter test xs ≡ xs
  filter-All test [] h = refl
  filter-All test (x ∷ xs) (e, h) = rw e (ap (◌∷◌ x) (filter-All test xs h))

  pub filter-none :
      (test : A → Bool) (xs : List A) → All (λ x. test x ≡ false) xs → filter test xs ≡ []
  filter-none test [] h = refl
  filter-none test (x ∷ xs) (e, h) = rw e (filter-none test xs h)

  pub filter-ext :
      (f g : A → Bool) (xs : List A) → All (λ x. f x ≡ g x) xs → filter f xs ≡ filter g xs
  filter-ext f g [] h = refl
  filter-ext f g (x ∷ xs) (e, h) =
      rw (e) (ap (λ ys. if g x then x ∷ ys else ys) (filter-ext f g xs h))

  pub filter-cons :
      (f : A → Bool) (x : A) (xs : List A) → filter f (x ∷ []) ++ filter f xs ≡ filter f (x ∷ xs)
  filter-cons f x xs = elim (Bool-cases (f x)) [ inl e ↦ rw e refl | inr e ↦ rw e refl ]

  -- xs[i:j], which panics out of range.
  abbrev pub slice : ℕ → ℕ → List A → Option (List A)
  slice i j xs = if leb i j && leb j (length xs) then some (drop i (take j xs)) else none

  pub All-split {κ} : (P : A → Type κ) (xs ys : List A) → All P (xs ++ ys) → All P xs × All P ys
  All-split P [] ys h = (tt, h)
  All-split P (x ∷ xs) ys (h, hs) = let (a, b) = All-split P xs ys hs in ((h, a), b)

  pub All-filter {κ} :
      (P : A → Type κ) (f : A → Bool) (xs : List A)
      → ((x : A) → f x ≡ true → P x)
      → All P (filter f xs)
  All-filter P f [] h = tt
  All-filter P f (x ∷ xs) h = elim (Bool-cases (f x)) [
    | inl e ↦ rw e (h x e, All-filter P f xs h)
    | inr e ↦ rw e (All-filter P f xs h)
  ]

  pub filter-keeps {κ} :
      (P : A → Type κ) (f : A → Bool) (xs : List A) → All P xs → All P (filter f xs)
  filter-keeps P f [] h = tt
  filter-keeps P f (x ∷ xs) (h, hs) = elim (Bool-cases (f x)) [
    | inl e ↦ rw e (h, filter-keeps P f xs hs)
    | inr e ↦ rw e (filter-keeps P f xs hs)
  ]

  pub filter-IsOrdered {κ} :
      (R : A → A → Type κ) (f : A → Bool) (xs : List A) → IsOrdered R xs → IsOrdered R (filter f xs)
  filter-IsOrdered R f [] o = tt
  filter-IsOrdered R f (x ∷ xs) (b, o) = elim (Bool-cases (f x)) [
    | inl e ↦ rw e (filter-keeps (R x) f xs b, filter-IsOrdered R f xs o)
    | inr e ↦ rw e (filter-IsOrdered R f xs o)
  ]

  pub IsOrdered-join {κ} :
      (R : A → A → Type κ) (xs ys : List A)
      → IsOrdered R xs
      → IsOrdered R ys
      → All (λ x. All (R x) ys) xs
      → IsOrdered R (xs ++ ys)
  IsOrdered-join R [] ys o p h = p
  IsOrdered-join R (x ∷ xs) ys (b, o) p (h, hs) =
      (All-append (R x) xs ys b h, IsOrdered-join R xs ys o p hs)

  pub IsOrdered-unjoin {κ} :
      (R : A → A → Type κ) (xs ys : List A)
      → IsOrdered R (xs ++ ys)
      → IsOrdered R xs × IsOrdered R ys × All (λ x. All (R x) ys) xs
  IsOrdered-unjoin R [] ys o = (tt, o, tt)
  IsOrdered-unjoin R (x ∷ xs) ys (b, o) =
      let (here, rest) = All-split (R x) xs ys b in
      let (o', p, h) = IsOrdered-unjoin R xs ys o in ((here, o'), p, (rest, h))

pub length-map : {A B : Type 0} (f : A → B) (xs : List A) → length (map f xs) ≡ length xs
length-map f [] = refl
length-map f (x ∷ xs) = ap suc (length-map f xs)

pub map-append :
    {A B : Type 0} (f : A → B) (xs ys : List A) → map f (xs ++ ys) ≡ map f xs ++ map f ys
map-append f [] ys = refl
map-append f (x ∷ xs) ys = ap (◌∷◌ (f x)) (map-append f xs ys)
