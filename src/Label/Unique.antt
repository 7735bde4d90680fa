-- ===== src/Label/Unique.antt =====
-- Which metrics share a name.
use tstorage.Base.{ℕ, ◌+◌, ◌*◌, ◌/◌, ◌%◌, ◌^◌, ◌≤◌, ◌<◌, ◌≡◌, refl, sym, ap, ap₂, ◌∙◌, false}
use tstorage.Base.{
  if◌then◌else◌, ltb, List, [], ◌∷◌, ◌++◌, length, arith, append_assoc, append-nil, All,
}
use tstorage.Base.{append_inj, length-take, Bool-cases, inl, inr, ltb→ge}
use tstorage.Rows.{Label}
use tstorage.Label.{
  marshal_uint16, invalid, shorten, shorten_all, put_field, put_labels, marshal_metric_name, cut,
}

abbrev prefix : ℕ → List ℕ
prefix n = n / 256 % 256 ∷ n % 256 ∷ []

abbrev field : List ℕ → List ℕ
field xs = prefix (length xs % 2 ^ 16) ++ xs

abbrev two : List ℕ → ℕ
two [] = 0
two (a ∷ []) = 0
two (a ∷ b ∷ more) = a * 256 + b

-- A field is known from its bytes, and where it ends.
field_inj :
    (xs ys us vs : List ℕ)
    → length xs < 65536
    → length ys < 65536
    → field xs ++ us ≡ field ys ++ vs
    → (xs ≡ ys) × (us ≡ vs)
field_inj xs ys us vs hx hy e =
    let (heads, tails) =
      append_inj (prefix (length xs % 2 ^ 16)) (prefix (length ys % 2 ^ 16)) (xs ++ us) (ys ++ vs)
        refl e in
    append_inj xs ys us vs (omega (arith, ap two heads)) tails

put_field_lem : (out xs : List ℕ) → put_field out xs ≡ out ++ field xs
unfolding put_field marshal_uint16
put_field_lem out xs = append_assoc out (prefix (length xs % 2 ^ 16)) xs

-- The labels that count.
abbrev pub kept : List Label → List Label
kept [] = []
kept (l ∷ ls) = let rest = kept ls in if invalid l then rest else l ∷ rest

abbrev code : List Label → List ℕ
code [] = []
code (l ∷ ls) = field l.name ++ (field l.value ++ code ls)

put_labels_lem : (out : List ℕ) (ls : List Label) → put_labels out ls ≡ out ++ code (kept ls)
unfolding put_labels
put_labels_lem out [] = sym (append-nil out)
put_labels_lem out (l ∷ ls) = elim (Bool-cases (invalid l)) [
  | inl e ↦ rw e (put_labels_lem out ls)
  | inr e ↦ rw e (
      put_labels_lem (put_field (put_field out l.name) l.value) ls
      ∙ ap (λ t. t ++ code (kept ls))
          (put_field_lem (put_field out l.name) l.value
            ∙ ap (λ t. t ++ field l.value) (put_field_lem out l.name))
      ∙ append_assoc (out ++ field l.name) (field l.value) (code (kept ls))
      ∙ append_assoc out (field l.name) (field l.value ++ code (kept ls)))
]

abbrev IsShort : Label → Type 0
IsShort l = (length l.name < 65536) × (length l.value < 65536)

code_inj : (ls ms : List Label) → All IsShort ls → All IsShort ms → code ls ≡ code ms → ls ≡ ms
code_inj [] [] h k e = refl
code_inj [] (m ∷ ms) h k e = absurd (omega (arith, ap length e))
code_inj (l ∷ ls) [] h k e = absurd (omega (arith, ap length e))
code_inj (l ∷ ls) (m ∷ ms) ((ln, lv), hs) ((mn, mv), ks) e =
    let (names, rest) = field_inj l.name m.name _ _ ln mn e in
    let (values, tails) = field_inj l.value m.value (code ls) (code ms) lv mv rest in
    ap₂ ◌∷◌ (ap₂ (λ n v. record { name = n; value = v }) names values) (code_inj ls ms hs ks tails)

cut_lem : (n : ℕ) (xs : List ℕ) → length (cut n xs) ≤ n
cut_lem n xs = elim (Bool-cases (ltb n (length xs))) [
  | inl e ↦ rw e (omega (arith, length-take n xs))
  | inr e ↦ rw e (ltb→ge n (length xs) e)
]

shorten-IsShort : (l : Label) → invalid (shorten l) ≡ false → IsShort (shorten l)
unfolding shorten
shorten-IsShort l e = elim (Bool-cases (invalid l)) [
  | inl bad ↦ let e' : invalid l ≡ false = rw bad at e in absurd (ground (arith, bad, e'))
  | inr good ↦ rw good (omega (arith, cut_lem 256 l.name), omega (arith, cut_lem 16384 l.value))
]

kept-IsShort : (ls : List Label) → All IsShort (kept (shorten_all ls))
unfolding shorten_all
kept-IsShort [] = tt
kept-IsShort (l ∷ ls) = elim (Bool-cases (invalid (shorten l))) [
  | inl e ↦ rw e (kept-IsShort ls)
  | inr e ↦ rw e (shorten-IsShort l e, kept-IsShort ls)
]

-- Two metrics with labels, of names shorter than 2 ^ 16, that marshalMetricName gives one name have
-- one metric name and, as the sort orders them and shortened, the same labels that have both a name
-- and a value.
pub marshal_metric_name_inj :
    (sort : List Label → List Label) (metric metric' : List ℕ) (l l' : Label) (ls ls' : List Label)
    → length metric < 65536
    → length metric' < 65536
    → marshal_metric_name sort metric (l ∷ ls) ≡ marshal_metric_name sort metric' (l' ∷ ls')
    → (metric ≡ metric')
      × (kept (shorten_all (sort (l ∷ ls))) ≡ kept (shorten_all (sort (l' ∷ ls'))))
unfolding marshal_metric_name
marshal_metric_name_inj sort metric metric' l l' ls ls' h h' e =
    let s = shorten_all (sort (l ∷ ls)) in
    let s' = shorten_all (sort (l' ∷ ls')) in
    let (names, codes) = field_inj metric metric' (code (kept s)) (code (kept s')) h h' (
      sym (
        put_labels_lem (put_field [] metric) s
        ∙ ap (λ t. t ++ code (kept s)) (put_field_lem [] metric))
      ∙ e
      ∙ put_labels_lem (put_field [] metric') s'
      ∙ ap (λ t. t ++ code (kept s')) (put_field_lem [] metric')) in
    (
      names,
      code_inj (kept s) (kept s') (kept-IsShort (sort (l ∷ ls))) (kept-IsShort (sort (l' ∷ ls')))
          codes,
    )
