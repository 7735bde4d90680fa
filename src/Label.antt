-- ===== src/Label.antt =====
-- label.go and internal/encoding/int.go: the name under which a metric with labels is stored. A
-- string is the list of its bytes.
pub mod Unique
use tstorage.Base.{
  ℕ, zero, suc, ◌+◌, ◌*◌, ◌/◌, ◌%◌, ◌^◌, Bool, true, false, ◌||◌, if◌then◌else◌, ltb,
}
use tstorage.Base.{List, [], ◌∷◌, ◌++◌, Option, none, some, length, take}
use tstorage.Rows.{Label}

unfoldable pub marshal_uint16 : List ℕ → ℕ → List ℕ
marshal_uint16 dst u = dst ++ u / 256 % 256 ∷ u % 256 ∷ []

-- binary.BigEndian.Uint16, which panics on fewer than two bytes.
pub unmarshal_uint16 : List ℕ → Option ℕ
unmarshal_uint16 [] = none
unmarshal_uint16 (a ∷ []) = none
unmarshal_uint16 (a ∷ b ∷ more) = some (a * 256 + b)

abbrev pub max_label_name_len : ℕ
max_label_name_len = 256

abbrev pub max_label_value_len : ℕ
max_label_value_len = 16384

abbrev is_empty : List ℕ → Bool
is_empty [] = true
is_empty (x ∷ xs) = false

abbrev pub invalid : Label → Bool
invalid l = is_empty l.name || is_empty l.value

abbrev pub cut : ℕ → List ℕ → List ℕ
cut n xs = if ltb n (length xs) then take n xs else xs

-- The first loop, which shortens names and values in place.
unfoldable pub shorten : Label → Label
shorten l =
    if invalid l
    then l
    else record { name = cut max_label_name_len l.name; value = cut max_label_value_len l.value }

unfoldable pub shorten_all : List Label → List Label
shorten_all [] = []
shorten_all (l ∷ ls) = shorten l ∷ shorten_all ls

-- A string behind its length as a uint16.
unfoldable pub put_field : List ℕ → List ℕ → List ℕ
put_field out xs = marshal_uint16 out (length xs % 2 ^ 16) ++ xs

-- The second loop.
unfoldable pub put_labels : List ℕ → List Label → List ℕ
put_labels out [] = out
put_labels out (l ∷ ls) =
    put_labels (if invalid l then out else put_field (put_field out l.name) l.value) ls

-- `sort` is sort.Slice by name.
unfoldable pub marshal_metric_name : (List Label → List Label) → List ℕ → List Label → List ℕ
marshal_metric_name sort metric [] = metric
marshal_metric_name sort metric (l ∷ ls) =
    put_labels (put_field [] metric) (shorten_all (sort (l ∷ ls)))
