-- ===== src/Listx/Tests.antt =====
-- Runs of the list operations of listx.h on a list of three nodes, and the theorems at that list.
use progetto_so.Base.{ℕ, ◌≡◌, refl, true, [], ◌∷◌, arith, ◌==◌}
use progetto_so.Listx.{
  Mem, found, init_list_head, list_add, list_add_tail, list_del, list_search, list_is_last,
  list_next, list_prev,
}
use progetto_so.Listx.Chain.{IsList}
use progetto_so.Listx.Insert.{init_list_head-IsList, list_add-IsList, list_add_tail-IsList}
use progetto_so.Listx.Delete.{list_del-IsList}
use progetto_so.Listx.Scan.{first_match, list_search-first_match}
use progetto_so.Listx.Frame.{SameOutside, list_del-same}

abbrev blank : Mem
blank = record { next = λ a. 0; prev = λ a. 0 }

-- The list with head 100 and the nodes 10, 20 and 30.
abbrev three : Mem
three = list_add_tail 30 100 (list_add_tail 20 100 (list_add 10 100 (init_list_head 100 blank)))

one_IsList : IsList (list_add 10 100 (init_list_head 100 blank)) 100 (10 ∷ [])
one_IsList = list_add-IsList 10 (init_list_head-IsList 100 blank) refl

three_IsList : IsList three 100 (10 ∷ 20 ∷ 30 ∷ [])
three_IsList = list_add_tail-IsList 30 (list_add_tail-IsList 20 one_IsList refl) refl

deleted_node : (list_del 20 three).next 10 ≡ 30
unfolding init_list_head list_add list_add_tail list_del
deleted_node = refl

last_node : list_is_last 30 100 three ≡ true
unfolding init_list_head list_add list_add_tail list_is_last
last_node = refl

neighbours_of_head : ◌≡◌ {A = ℕ × ℕ} (list_next 100 three, list_prev 100 three) (10, 30)
unfolding init_list_head list_add list_add_tail list_next list_prev
neighbours_of_head = refl

found_node : list_search 5 (λ a. a == 30) 100 three ≡ found 30
unfolding init_list_head list_add list_add_tail list_search
found_node = refl

list_del-IsList_example : IsList (list_del 20 three) 100 (10 ∷ 30 ∷ [])
list_del-IsList_example = list_del-IsList 20 three_IsList refl

list_search-first_match_example : list_search 4 (λ a. a == 20) 100 three ≡ found 20
unfolding first_match
list_search-first_match_example =
    list_search-first_match 4 (λ a. a == 20) three_IsList (omega arith)

list_del-same_example : SameOutside (100 ∷ 10 ∷ 20 ∷ 30 ∷ []) three (list_del 30 three)
list_del-same_example = list_del-same three_IsList 30 refl
