-- ===== src/LinkedList/Ends.antt =====
-- `insert`, `push`, `pop` and `removeNode` (list.c) between neighbours.
use ccsds_file_delivery_prot.Common.{
  ℕ, ◌≡◌, ◌≢◌, refl, ap, sym, arith, ◌==◌, true, false, none, some, List, u32,
}
use ccsds_file_delivery_prot.LinkedList.{
  Ptr, null, Node, LinkedList, Heap, write, load, store, set_next, set_prev, free_node, create_node,
  pop, insert, push, remove_node, incremented, decremented,
}
use ccsds_file_delivery_prot.LinkedList.Links.{Cell, linked, first_place, last_place}
use ccsds_file_delivery_prot.LinkedList.Change.{Inserted, Removed}

-- A command at an address that holds a node.
module _ (h : Heap) (p : Ptr) (n : Node) (there : p ≢ null) (e : h.cell p ≡ some n) where
  pub load_at : load p h ≡ some (n, h)
  unfolding load
  load_at = ground arith

  pub set_next_at : (q : Ptr) → set_next p q h ≡ some (tt, write h p (some (record n { next = q })))
  unfolding set_next store
  set_next_at q = rw load_at

  pub set_prev_at : (q : Ptr) → set_prev p q h ≡ some (tt, write h p (some (record n { prev = q })))
  unfolding set_prev store
  set_prev_at q = rw load_at

  pub free_node_at : free_node p h ≡ some (tt, write h p none)
  unfolding free_node store
  free_node_at = let here : (p == null) ≡ false = ground arith in rw (here, load_at)

module _ (h : Heap) (prev next : Ptr) (xs ys : List Cell) (a b n : Cell) where
  -- Three neighbours.
  pub record Around : Type 0 where
    pub at_a : h.cell a.place ≡ some (linked a n.place (last_place prev xs))
    pub at_n : h.cell n.place ≡ some (linked n b.place a.place)
    pub at_b : h.cell b.place ≡ some (linked b (first_place ys next) n.place)
    pub a_there : a.place ≢ null
    pub n_there : n.place ≢ null
    pub b_there : b.place ≢ null
    pub a_n : a.place ≢ n.place
    pub b_n : b.place ≢ n.place
    pub a_b : a.place ≢ b.place

  -- Two neighbours, and an address without a node.
  pub record Between : Type 0 where
    pub at_a : h.cell a.place ≡ some (linked a b.place (last_place prev xs))
    pub at_b : h.cell b.place ≡ some (linked b (first_place ys next) a.place)
    pub at_n : h.cell n.place ≡ none
    pub a_there : a.place ≢ null
    pub n_there : n.place ≢ null
    pub b_there : b.place ≢ null
    pub a_n : a.place ≢ n.place
    pub b_n : b.place ≢ n.place
    pub a_b : a.place ≢ b.place

  abbrev pub unlinked : Heap
  unlinked =
      write
        (write (write h a.place (some (linked a b.place (last_place prev xs)))) b.place
          (some (linked b (first_place ys next) a.place)))
        n.place none

  unlinked-Removed : Around → Removed prev next xs ys a b n h unlinked
  unlinked-Removed r = record {
    gone = ground arith;
    before = ground arith;
    behind = ground arith;
    same = λ q qn qa qb. ground arith;
  }

  pub remove_node_around :
      (list : LinkedList)
      → Around
      → (remove_node list n.place h ≡ some ((n.element, decremented list), unlinked))
        × Removed prev next xs ys a b n h unlinked
  unfolding remove_node
  remove_node_around list r = (
    rw
        (
          load_at h n.place (linked n b.place a.place) r.n_there r.at_n,
          set_next_at h a.place (linked a n.place (last_place prev xs)) r.a_there r.at_a b.place,
          set_prev_at (write h a.place (some (linked a b.place (last_place prev xs)))) b.place
              (linked b (first_place ys next) n.place) r.b_there (ground arith) a.place,
          free_node_at
              (write (write h a.place (some (linked a b.place (last_place prev xs)))) b.place
                (some (linked b (first_place ys next) a.place)))
              n.place (linked n b.place a.place) r.n_there (ground arith),
        )
        refl,
    unlinked-Removed r,
  )

  -- The new node alone, linked forward, and linked both ways; with the node before, and with the node
  -- behind.
  abbrev fresh : Heap
  fresh = write h n.place (some (linked n null null))

  abbrev forward : Heap
  forward = write fresh n.place (some (linked n b.place null))

  abbrev behind_linked : Heap
  behind_linked = write forward b.place (some (linked b (first_place ys next) n.place))

  abbrev both_linked : Heap
  both_linked = write behind_linked n.place (some (linked n b.place a.place))

  abbrev pub inserted : Heap
  inserted = write both_linked a.place (some (linked a n.place (last_place prev xs)))

  abbrev backward : Heap
  backward = write forward n.place (some (linked n b.place a.place))

  abbrev before_linked : Heap
  before_linked = write backward a.place (some (linked a n.place (last_place prev xs)))

  abbrev pub pushed : Heap
  pushed = write before_linked b.place (some (linked b (first_place ys next) n.place))

  abbrev pub pushed_first : Heap
  pushed_first = write pushed a.place (some (linked a n.place (last_place prev xs)))

  module _ (r : Between) where
    inserted-Inserted : Inserted prev next xs ys a b n h inserted
    inserted-Inserted = record {
      here = ground arith;
      before = ground arith;
      behind = ground arith;
      same = λ q qn qa qb. ground arith;
    }

    pub pushed-Inserted : Inserted prev next xs ys a b n h pushed
    pushed-Inserted = record {
      here = ground arith;
      before = ground arith;
      behind = ground arith;
      same = λ q qn qa qb. ground arith;
    }

    pub pushed_first-Inserted : Inserted prev next xs ys a b n h pushed_first
    pushed_first-Inserted = record {
      here = ground arith;
      before = ground arith;
      behind = ground arith;
      same = λ q qn qa qb. ground arith;
    }

    create_at :
        (id : ℕ)
        → n.id ≡ u32 id
        → create_node (some n.place) n.element id h ≡ some (some n.place, fresh)
    unfolding create_node
    create_at id same_id =
        ap
          (λ (i : ℕ).
            some (some n.place, write h n.place (some (linked (record n { id = i }) null null))))
          (sym same_id)

    pub insert_between :
        (tail count id : ℕ)
        → n.id ≡ u32 id
        → (let list : LinkedList = record { head = a.place; tail = tail; count = count } in
            insert (some n.place) list n.element id h ≡ some ((true, incremented list), inserted))
          × Inserted prev next xs ys a b n h inserted
    unfolding insert
    insert_between tail count id same_id = (
      rw
          (
            create_at id same_id,
            load_at fresh a.place (linked a b.place (last_place prev xs)) r.a_there (ground arith),
            set_next_at fresh n.place (linked n null null) r.n_there (ground arith) b.place,
            set_prev_at forward b.place (linked b (first_place ys next) a.place) r.b_there
                (ground arith) n.place,
            set_prev_at behind_linked n.place (linked n b.place null) r.n_there (ground arith)
                a.place,
            set_next_at both_linked a.place (linked a b.place (last_place prev xs)) r.a_there
                (ground arith) n.place,
          )
          refl,
      inserted-Inserted,
    )

    pub push_between :
        (head count id : ℕ)
        → n.id ≡ u32 id
        → (count == 0) ≡ false
        → (let list : LinkedList = record { head = head; tail = b.place; count = count } in
            push (some n.place) list n.element id h ≡ some ((true, incremented list), pushed))
    unfolding push
    push_between head count id same_id more =
        rw
          (
            create_at id same_id,
            set_next_at fresh n.place (linked n null null) r.n_there (ground arith) b.place,
            load_at forward b.place (linked b (first_place ys next) a.place) r.b_there
                (ground arith),
            set_prev_at forward n.place (linked n b.place null) r.n_there (ground arith) a.place,
            set_next_at backward a.place (linked a b.place (last_place prev xs)) r.a_there
                (ground arith) n.place,
            set_prev_at before_linked b.place (linked b (first_place ys next) a.place) r.b_there
                (ground arith) n.place,
            more,
          )
          refl

    pub push_between_first :
        (count id : ℕ)
        → n.id ≡ u32 id
        → (count == 0) ≡ true
        → (let list : LinkedList = record { head = a.place; tail = b.place; count = count } in
            push (some n.place) list n.element id h ≡ some ((true, incremented list), pushed_first))
    unfolding push
    push_between_first count id same_id first =
        rw
          (
            create_at id same_id,
            set_next_at fresh n.place (linked n null null) r.n_there (ground arith) b.place,
            load_at forward b.place (linked b (first_place ys next) a.place) r.b_there
                (ground arith),
            set_prev_at forward n.place (linked n b.place null) r.n_there (ground arith) a.place,
            set_next_at backward a.place (linked a b.place (last_place prev xs)) r.a_there
                (ground arith) n.place,
            set_prev_at before_linked b.place (linked b (first_place ys next) a.place) r.b_there
                (ground arith) n.place,
            first,
            set_next_at pushed a.place (linked a n.place (last_place prev xs)) r.a_there
                (ground arith) n.place,
          )
          refl

  -- The node before the tail, here `b`, goes.
  pub pop_around :
      (head count : ℕ)
      → Around
      → (count == 0) ≡ false
      → (let list : LinkedList = record { head = head; tail = b.place; count = count } in
          pop list h ≡ some ((n.element, decremented list), unlinked))
        × Removed prev next xs ys a b n h unlinked
  unfolding pop
  pop_around head count r more = (
    rw
        (
          more,
          load_at h b.place (linked b (first_place ys next) n.place) r.b_there r.at_b,
          load_at h n.place (linked n b.place a.place) r.n_there r.at_n,
          set_next_at h a.place (linked a n.place (last_place prev xs)) r.a_there r.at_a b.place,
          set_prev_at (write h a.place (some (linked a b.place (last_place prev xs)))) b.place
              (linked b (first_place ys next) n.place) r.b_there (ground arith) a.place,
          free_node_at
              (write (write h a.place (some (linked a b.place (last_place prev xs)))) b.place
                (some (linked b (first_place ys next) a.place)))
              n.place (linked n b.place a.place) r.n_there (ground arith),
        )
        refl,
    unlinked-Removed r,
  )
