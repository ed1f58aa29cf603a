-- ===== src/Tests/Lists.antt =====
-- The theorems on list.c, each used on an example.
use ccsds_file_delivery_prot.Common.{
  ℕ, ◌≡◌, refl, arith, ◌==◌, if◌then◌else◌, Bool, Option, none, some, List, [], ◌∷◌, Returns,
}
use ccsds_file_delivery_prot.LinkedList.{
  Ptr, null, Node, LinkedList, Heap, find_node, remove_element, remove_node,
}
use ccsds_file_delivery_prot.LinkedList.Links.{Cell, linked}
use ccsds_file_delivery_prot.LinkedList.Sequence.{IsList, SameOutside, whole, sentinel}
use ccsds_file_delivery_prot.LinkedList.Operations.{remove_node-IsList}
use ccsds_file_delivery_prot.LinkedList.Refinement.{
  memory, ListOp, push_op, insert_op, pop_op, Allocator, Allocates, Outcomes, run_ops,
  run_ops-refines,
}
use ccsds_file_delivery_prot.LinkedList.Search.{find_node-first, remove_element-first}

abbrev a_list : ℕ → LinkedList
a_list n = record { head = 1; tail = 2; count = n }

-- Head and tail at 1 and 2, and two cells at 5 and 6.
abbrev cell_5 : Cell
cell_5 = record { place = 5; id = 7; element = 50 }

abbrev cell_6 : Cell
cell_6 = record { place = 6; id = 8; element = 60 }

abbrev two_cells : Ptr → Option Node
two_cells p =
    if p == 1
    then some (linked (sentinel 1) 5 null)
    else if p == 2
    then some (linked (sentinel 2) null 6)
    else if p == 5
    then some (linked cell_5 6 1)
    else if p == 6
    then some (linked cell_6 2 5)
    else none

abbrev a_heap : Heap
a_heap = record { cell = two_cells }

a_heap-IsList : IsList a_heap (a_list 2) (cell_5 ∷ cell_6 ∷ [])
a_heap-IsList = record {
  chain = (refl, (refl, (refl, (refl, tt))));
  apart = ground arith;
  count = refl;
  small = omega arith;
}

-- Memory at 9, as long as it is free.
abbrev an_allocator : Allocator
an_allocator = record { ssp_alloc = λ h. elim (h.cell 9) [ none ↦ some 9 | some n ↦ none ] }

an_allocator-Allocates : Allocates an_allocator
an_allocator-Allocates h p e = ground (arith, e)

abbrev some_ops : List ListOp
some_ops = insert_op 40 3 ∷ push_op 70 4 ∷ pop_op ∷ pop_op ∷ []

run_ops-refines_example :
    Returns
      (Outcomes (memory an_allocator some_ops (a_list 2) a_heap) some_ops (50 ∷ 60 ∷ []))
      (run_ops an_allocator some_ops (a_list 2) a_heap)
run_ops-refines_example =
    run_ops-refines an_allocator an_allocator-Allocates some_ops a_heap (a_list 2) (50 ∷ 60 ∷ [])
      (cell_5 ∷ cell_6 ∷ [], a_heap-IsList, refl) (omega arith)

remove_node-IsList_example :
    (h' : Heap) × (remove_node (a_list 2) 6 a_heap ≡ some ((60, a_list 1), h'))
    × IsList h' (a_list 1) (cell_5 ∷ [])
    × SameOutside a_heap h' (whole (a_list 2) (cell_5 ∷ cell_6 ∷ []))
    × (h'.cell 6 ≡ none)
remove_node-IsList_example =
    remove_node-IsList a_heap (a_list 2) (cell_5 ∷ []) [] cell_6 a_heap-IsList

abbrev is_sixty : Option (Ptr → Bool)
is_sixty = some (λ e. e == 60)

find_node-first_example : find_node 3 (a_list 2) none is_sixty a_heap ≡ some (6, a_heap)
find_node-first_example =
    find_node-first is_sixty none a_heap (a_list 2) (cell_5 ∷ cell_6 ∷ []) 3 a_heap-IsList
      (omega arith)

remove_element-first_example :
    (h' : Heap) × (remove_element 4 (a_list 2) none is_sixty a_heap ≡ some ((60, a_list 1), h'))
    × IsList h' (a_list 1) (cell_5 ∷ [])
    × SameOutside a_heap h' (whole (a_list 2) (cell_5 ∷ cell_6 ∷ []))
    × (h'.cell 6 ≡ none)
remove_element-first_example =
    remove_element-first is_sixty none a_heap (a_list 2) (cell_5 ∷ []) [] cell_6 4 a_heap-IsList
      (refl, (refl, tt)) refl (omega arith)
