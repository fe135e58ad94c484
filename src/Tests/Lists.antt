-- ===== src/Tests/Lists.antt =====
-- Examples for LinkedList.
use libcddb.Base.{
  ℕ, ◌≡◌, refl, arith, none, some, Option, ◌==◌, if◌then◌else◌, List, [], ◌∷◌, value,
}
use libcddb.LinkedList.{Heap, Elem, LinkedList, list_first}
use libcddb.LinkedList.Shape.{IsList, Appended, list_append-Appended}
use libcddb.LinkedList.Access.{visit, visit-list_first}
use libcddb.LinkedList.Flush.{Flushes, list_flush-Flushes}

abbrev empty_heap : Heap ℕ
empty_heap = record { cell = λ a. none; fresh = 4 }

abbrev cells : List (ℕ × ℕ)
cells = (4, 10) ∷ (6, 20) ∷ []

abbrev cell_of : ℕ → Option (Elem ℕ)
cell_of a =
    if a == 4
    then some (record { prev = none; next = some 6; item = 10 })
    else if a == 6
    then some (record { prev = some 4; next = none; item = 20 })
    else none

abbrev pair_heap : Heap ℕ
pair_heap = record { cell = cell_of; fresh = 7 }

abbrev pair_list : LinkedList
pair_list = record { cnt = 2; first = some 4; last = some 6; it = some 6 }

pair-IsList : IsList pair_heap pair_list cells
pair-IsList = record {
  linked = (refl, omega arith, omega arith, (refl, omega arith, omega arith, tt));
  first = refl;
  last = refl;
  cnt = refl;
}

list_append-Appended_example : Appended pair_heap pair_list 30 cells
list_append-Appended_example = list_append-Appended pair_heap pair_list 30 cells pair-IsList

visit-list_first_example :
    visit 3 pair_heap (list_first pair_list) ≡ value (record pair_list { it = none }, 10 ∷ 20 ∷ [])
visit-list_first_example = visit-list_first pair_heap pair_list cells pair-IsList

list_flush-Flushes_example : Flushes pair_heap pair_list cells
list_flush-Flushes_example = list_flush-Flushes pair_heap pair_list cells pair-IsList
