-- ===== src/LinkedList/Operations.antt =====
-- The operations of list.c on a list that stands for a sequence.
use mathlib.Core.List.{append-nil}
use ccsds_file_delivery_prot.Common.{
  ℕ, ◌+◌, ◌<◌, ◌^◌, ◌≡◌, ◌≢◌, refl, sym, subst, arith, ◌==◌, true, false, none, some, List, [], ◌∷◌,
  ◌++◌, length-append, u32,
}
use ccsds_file_delivery_prot.LinkedList.{
  null, LinkedList, Heap, pop, insert, push, remove_node, incremented, decremented,
}
use ccsds_file_delivery_prot.LinkedList.Links.{Cell}
use ccsds_file_delivery_prot.LinkedList.Ends.{
  unlinked, inserted, pushed, pushed_first, remove_node_around, insert_between, push_between,
  push_between_first, pop_around, pushed-Inserted, pushed_first-Inserted,
}
use ccsds_file_delivery_prot.LinkedList.Sequence.{
  IsList, SameOutside, whole, fore, left, right, aft, around_in, between_in, Removed-IsList,
  Inserted-IsList,
}

module _ (h : Heap) (l : LinkedList) where
  -- The node of any cell is taken out by `removeNode`, which returns its element and frees it. The
  -- list stands for the other cells in their order, and no other address is touched.
  pub remove_node-IsList :
      (xs ys : List Cell) (n : Cell)
      → IsList h l (xs ++ (n ∷ ys))
      → (h' : Heap) × (remove_node l n.place h ≡ some ((n.element, decremented l), h'))
        × IsList h' (decremented l) (xs ++ ys)
        × SameOutside h h' (whole l (xs ++ (n ∷ ys)))
        × (h'.cell n.place ≡ none)
  remove_node-IsList xs ys n i =
      let h' = unlinked h null null (fore l xs ys) (aft l xs ys) (left l xs ys) (right l xs ys) n in
      let (run, removed) =
        remove_node_around h null null (fore l xs ys) (aft l xs ys) (left l xs ys) (right l xs ys) n
          l (around_in l xs ys h h' n i) in
      let (is, same) = Removed-IsList l xs ys h h' n i removed in (h', run, is, same, removed.gone)

  -- `pop` takes the last cell, if there is one.
  pub pop-snoc :
      (cs : List Cell) (n : Cell)
      → IsList h l (cs ++ (n ∷ []))
      → (h' : Heap) × (pop l h ≡ some ((n.element, decremented l), h'))
        × IsList h' (decremented l) (cs ++ [])
  pop-snoc cs n i =
      let h' = unlinked h null null (fore l cs []) (aft l cs []) (left l cs []) (right l cs []) n in
      let some_left : (l.count == 0) ≡ false = ground (arith, i.count, length-append cs (n ∷ [])) in
      let (run, removed) =
        pop_around h null null (fore l cs []) (aft l cs []) (left l cs []) (right l cs []) n l.head
          l.count (around_in l cs [] h h' n i) some_left in
      let (is, same) = Removed-IsList l cs [] h h' n i removed in (h', run, is)

  pub pop-nil : IsList h l [] → pop l h ≡ some ((null, l), h)
  unfolding pop
  pop-nil i = let no_cell : (l.count == 0) ≡ true = ground (arith, i.count) in rw no_cell

  module _ (p element id : ℕ) (free : h.cell p ≡ none) (there : p ≢ null)
      (room : l.count + 1 < 2 ^ 32) where
    abbrev pub new_cell : Cell
    new_cell = record { place = p; id = u32 id; element = element }

    pub insert-IsList :
        (cs : List Cell)
        → IsList h l cs
        → (h' : Heap) × (insert (some p) l element id h ≡ some ((true, incremented l), h'))
          × IsList h' (incremented l) (new_cell ∷ cs)
    insert-IsList cs i =
        let h' =
          inserted h null null (fore l [] cs) (aft l [] cs) (left l [] cs) (right l [] cs)
            new_cell in
        let (run, made) =
          insert_between h null null (fore l [] cs) (aft l [] cs) (left l [] cs) (right l [] cs)
            new_cell (between_in l [] cs h h' new_cell i free there) l.tail l.count id refl in
        let (is, same) = Inserted-IsList l [] cs h h' new_cell i free there room made in
        (h', run, is)

    push_first :
        IsList h l []
        → (h' : Heap) × (push (some p) l element id h ≡ some ((true, incremented l), h'))
          × IsList h' (incremented l) (new_cell ∷ [])
    push_first i =
        let h' =
          pushed_first h null null (fore l [] []) (aft l [] []) (left l [] []) (right l [] [])
            new_cell in
        let around = between_in l [] [] h h' new_cell i free there in
        let no_cell : (l.count == 0) ≡ true = ground (arith, i.count) in
        let run =
          push_between_first h null null (fore l [] []) (aft l [] []) (left l [] []) (right l [] [])
            new_cell around l.count id refl no_cell in
        let made =
          pushed_first-Inserted h null null (fore l [] []) (aft l [] []) (left l [] [])
            (right l [] []) new_cell around in
        let (is, same) = Inserted-IsList l [] [] h h' new_cell i free there room made in
        (h', run, is)

    push_more :
        (cs : List Cell)
        → IsList h l cs
        → (l.count == 0) ≡ false
        → (h' : Heap) × (push (some p) l element id h ≡ some ((true, incremented l), h'))
          × IsList h' (incremented l) (cs ++ (new_cell ∷ []))
    push_more cs i some_cell =
        let h' =
          pushed h null null (fore l cs []) (aft l cs []) (left l cs []) (right l cs []) new_cell in
        let i' : IsList h l (cs ++ []) = subst (IsList h l) (sym (append-nil cs)) i in
        let around = between_in l cs [] h h' new_cell i' free there in
        let run =
          push_between h null null (fore l cs []) (aft l cs []) (left l cs []) (right l cs [])
            new_cell around l.head l.count id refl some_cell in
        let made =
          pushed-Inserted h null null (fore l cs []) (aft l cs []) (left l cs []) (right l cs [])
            new_cell around in
        let (is, same) = Inserted-IsList l cs [] h h' new_cell i' free there room made in
        (h', run, is)

    -- `push` at free memory adds a cell at the end.
    pub push-IsList :
        (cs : List Cell)
        → IsList h l cs
        → (h' : Heap) × (push (some p) l element id h ≡ some ((true, incremented l), h'))
          × IsList h' (incremented l) (cs ++ (new_cell ∷ []))
    push-IsList [] i = push_first i
    push-IsList (c ∷ cs) i = push_more (c ∷ cs) i (ground (arith, i.count))
