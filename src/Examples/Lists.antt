-- ===== src/Examples/Lists.antt =====
-- Small linked lists, of numbers in place of partitions.
use tstorage.Base.{ℕ, ◌+◌, ◌≡◌, Bool, true, ◌==◌, ltb, if◌then◌else◌, [], ◌∷◌, none}
use tstorage.PartitionList.{PartitionList, new_partition_list, insert, remove, swap}
use tstorage.PartitionList.Changes.{Holds}
use tstorage.PartitionList.Refines.{new-Holds, insert_lem, remove_lem, swap_lem}
use tstorage.PartitionList.Each.{Turn, go_on, stop, each, each_lem}

abbrev three : PartitionList ℕ
three = insert (insert (insert new_partition_list 10) 20) 30

three-Holds : Holds three (30 ∷ 20 ∷ 10 ∷ [])
three-Holds = insert_lem (insert (insert new_partition_list 10) 20) (20 ∷ 10 ∷ []) 30 (
    insert_lem (insert new_partition_list 10) (10 ∷ []) 20
      (insert_lem new_partition_list [] 10 new-Holds))

abbrev same_number : ℕ → ℕ → Bool
same_number a b = a == b

abbrev cleaned : ℕ → Bool
cleaned p = true

remove_lem_example :
    ((remove same_number cleaned three 20).0 ≡ none)
    × Holds (remove same_number cleaned three 20).1 (30 ∷ 10 ∷ [])
remove_lem_example = remove_lem same_number cleaned three 20 (30 ∷ 20 ∷ 10 ∷ []) three-Holds

swap_lem_example :
    ((swap same_number three 20 25).0 ≡ none)
    × Holds (swap same_number three 20 25).1 (30 ∷ 25 ∷ 10 ∷ [])
swap_lem_example = swap_lem same_number three 20 25 (30 ∷ 20 ∷ 10 ∷ []) three-Holds

-- Adds up to the first number below 20, and takes one from each.
abbrev adding : ℕ → ℕ → Turn ℕ × ℕ
adding s p = (if ltb p 20 then stop s else go_on (s + p), p + 1)

each_lem_example :
    ((each adding three 0).0 ≡ 50) × Holds (each adding three 0).1 (31 ∷ 21 ∷ 11 ∷ [])
each_lem_example = each_lem adding three 0 (30 ∷ 20 ∷ 10 ∷ []) three-Holds
