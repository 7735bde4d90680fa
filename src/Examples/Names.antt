-- ===== src/Examples/Names.antt =====
-- One name for the same labels in one order.
use tstorage.Base.{ℕ, ◌≡◌, refl, List, [], ◌∷◌, arith}
use tstorage.Rows.{Label}
use tstorage.Label.{marshal_metric_name, shorten_all, put_labels, shorten}
use tstorage.Label.Unique.{kept, marshal_metric_name_inj}

abbrev label : ℕ → ℕ → Label
label n v = record { name = n ∷ []; value = v ∷ [] }

abbrev unnamed : Label
unnamed = record { name = []; value = 7 ∷ [] }

-- A sort for lists that are in order by name.
abbrev unchanged : List Label → List Label
unchanged ls = ls

abbrev one_name : List ℕ
one_name = 0x61 ∷ []

marshal_metric_name_inj_example :
    (one_name ≡ one_name)
    × (kept (shorten_all (unchanged (unnamed ∷ label 1 2 ∷ [])))
        ≡ kept (shorten_all (unchanged (label 1 2 ∷ []))))
marshal_metric_name_inj_example =
    marshal_metric_name_inj unchanged one_name one_name unnamed (label 1 2) (label 1 2 ∷ []) []
      (omega arith) (omega arith) same
  where
    same :
        marshal_metric_name unchanged one_name (unnamed ∷ label 1 2 ∷ [])
        ≡ marshal_metric_name unchanged one_name (label 1 2 ∷ [])
    same = unfold marshal_metric_name put_labels shorten_all shorten in refl
