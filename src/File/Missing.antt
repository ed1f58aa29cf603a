-- ===== src/File/Missing.antt =====
-- The missing offsets of a file (types.h, filesystem_funcs.c): the ranges that are still to be
-- received. A list of list.c is the sequence of its elements, and a node is a place in it.
pub mod Ranges
pub mod Receive
pub mod Transfer
use ccsds_file_delivery_prot.Common.{
  ℕ, Bool, true, false, not, ◌&&◌, ltb, leb, ◌==◌, if◌then◌else◌, List, [], ◌∷◌, ◌++◌, Option, none,
  some,
}

-- The bytes from `start` up to, and without, `end`.
pub record Offset : Type 0 where
  pub start : ℕ
  pub end : ℕ

-- A node of a list: what stands before it, its element, what stands behind it.
pub record Node {ℓ} (A : Type ℓ) : Type ℓ where
  pub before : List A
  pub element : A
  pub after : List A

-- The first node whose element passes the test, `findNode` with no id.
module _ {ℓ} {A : Type ℓ} (test : A → Bool) where
  find_node_from : List A → List A → Option (Node A)
  find_node_from before [] = none
  find_node_from before (x ∷ xs) =
      if test x
      then some (record { before = before; element = x; after = xs })
      else find_node_from (before ++ x ∷ []) xs

  unfoldable pub find_node : List A → Option (Node A)
  unfolding find_node_from
  find_node xs = find_node_from [] xs

unfoldable pub find_nak : Offset → Offset → Bool
find_nak in_list to_insert =
    leb in_list.start to_insert.start
    && leb to_insert.start in_list.end
    && leb to_insert.end in_list.end
    && leb in_list.start to_insert.end

-- The return value of `receive_offset`: -1, 0 and 1.
pub data Received : Type 0 where
  no_memory refused taken : Received

-- Whether `ssp_alloc` succeeds for the new offset and for its node.
pub record Alloc : Type 0 where
  pub offset : Bool
  pub node : Bool

-- What is done at the node that was found.
unfoldable pub receive_at : Alloc → Offset → Node Offset → Received × List Offset
receive_at alloc new node =
    let o = node.element in
    if new.start == o.start && new.end == o.end
    then (taken, node.before ++ node.after)
    else if new.start == o.start && ltb new.start o.end
    then (taken, node.before ++ (record o { start = new.end } ∷ node.after))
    else if new.end == o.end && ltb o.start new.start
    then (taken, node.before ++ (record o { end = new.start } ∷ node.after))
    else if not alloc.offset
    then (no_memory, node.before ++ (o ∷ node.after))
    else let first = record o { end = new.start } in
      let second = record o { start = new.end } in
      if not alloc.node
      then (refused, node.before ++ (first ∷ node.after))
      else (taken, node.before ++ (first ∷ second ∷ node.after))

unfoldable pub receive_offset : Alloc → List Offset → ℕ → ℕ → Received × List Offset
unfolding find_node receive_at
receive_offset alloc missing_offsets offset_start offset_end =
    let new : Offset = record { start = offset_start; end = offset_end } in
    elim (find_node (λ o. find_nak o new) missing_offsets) [
      | none ↦ (refused, missing_offsets)
      | some node ↦ receive_at alloc new node
    ]

-- `add_first_offset`: the whole file is missing; the result is `none` if there is no memory for an
-- offset. That `insert` finds no memory for its node is not noticed.
unfoldable pub add_first_offset : Bool → Bool → List Offset → ℕ → Option (List Offset)
add_first_offset allocated node missing_offsets file_size =
    if not allocated
    then none
    else if node
    then some (record { start = 0; end = file_size } ∷ missing_offsets)
    else some missing_offsets
