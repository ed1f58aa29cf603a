-- ===== src/LinkedList.antt =====
-- list.c: a doubly linked list between two nodes that hold no element. Elements are addresses, as
-- nodes are; a command that follows NULL, or an address without a node, has no result.
pub mod Links
pub mod Change
pub mod Ends
pub mod Sequence
pub mod Operations
pub mod Refinement
pub mod Search
use ccsds_file_delivery_prot.Common.{
  ℕ, zero, suc, ◌+◌, ◌-◌, ◌^◌, ltb, ◌==◌, if◌then◌else◌, Bool, true, false, not, ◌&&◌, ◌||◌, Option,
  none, some, u32, List, [], ◌∷◌,
}

abbrev pub Ptr : Type 0
Ptr = ℕ

abbrev pub null : Ptr
null = 0

pub record Node : Type 0 where
  pub id : ℕ
  pub element : Ptr
  pub next : Ptr
  pub prev : Ptr

pub record LinkedList : Type 0 where
  pub head : Ptr
  pub tail : Ptr
  pub count : ℕ

pub record Heap : Type 0 where
  pub cell : Ptr → Option Node

abbrev pub write : Heap → Ptr → Option Node → Heap
write h p c = record { cell = λ q. if q == p then c else h.cell q }

abbrev pub Cmd : Type 0 → Type 0
Cmd A = Heap → Option (A × Heap)

abbrev pub pure : {A : Type 0} → A → Cmd A
pure a h = some (a, h)

abbrev pub and_then : {A B : Type 0} → Option (A × Heap) → (A → Cmd B) → Option (B × Heap)
and_then none f = none
and_then (some (a, h)) f = f a h

infixl 5 ◌>>=◌ ◌>>◌
abbrev pub ◌>>=◌ : {A B : Type 0} → Cmd A → (A → Cmd B) → Cmd B
m >>= f = λ h. and_then (m h) f

abbrev pub ◌>>◌ : {A B : Type 0} → Cmd A → Cmd B → Cmd B
m >> k = m >>= λ _. k

unfoldable pub load : Ptr → Cmd Node
load p h = if p == null then none else elim (h.cell p) [ none ↦ none | some n ↦ some (n, h) ]

unfoldable pub store : Ptr → Option Node → Cmd (Unit {0})
store p c h = some (tt, write h p c)

-- `p->next = q`, `p->prev = q` and `ssp_free(p)`.
unfoldable pub set_next : Ptr → Ptr → Cmd (Unit {0})
set_next p q = do n ← load p; store p (some (record n { next = q }))

unfoldable pub set_prev : Ptr → Ptr → Cmd (Unit {0})
set_prev p q = do n ← load p; store p (some (record n { prev = q }))

unfoldable pub free_node : Ptr → Cmd (Unit {0})
free_node p h = if p == null then some (tt, h) else (do load p; store p none) h

-- What `ssp_alloc` returns is an argument; the memory is cleared.
unfoldable pub create_node : Option Ptr → Ptr → ℕ → Cmd (Option Ptr)
create_node none element id h = some (none, h)
create_node (some p) element id h =
    some (
      some p,
      write h p (some (record { id = u32 id; element = element; next = null; prev = null })),
    )

abbrev pub decremented : LinkedList → LinkedList
decremented list = record list { count = u32 (list.count + 0xffff_ffff) }

abbrev pub incremented : LinkedList → LinkedList
incremented list = record list { count = u32 (list.count + 1) }

unfoldable pub pop : LinkedList → Cmd (Ptr × LinkedList)
pop list = if list.count == 0 then pure (null, list) else do
  tail ← load list.tail
  last_data_node ← load tail.prev
  set_next last_data_node.prev list.tail
  set_prev list.tail last_data_node.prev
  free_node tail.prev
  pure (last_data_node.element, decremented list)

-- The result says whether there was memory.
unfoldable pub insert : Option Ptr → LinkedList → Ptr → ℕ → Cmd (Bool × LinkedList)
insert alloc list element id = do
  node ← create_node alloc element id
  elim node [
    | none ↦ pure (false, list)
    | some node ↦ do
      head ← load list.head
      set_next node head.next
      set_prev head.next node
      set_prev node list.head
      set_next list.head node
      pure (true, incremented list)
  ]

unfoldable pub push : Option Ptr → LinkedList → Ptr → ℕ → Cmd (Bool × LinkedList)
push alloc list element id = do
  node ← create_node alloc element id
  elim node [
    | none ↦ pure (false, list)
    | some node ↦ do
      set_next node list.tail
      tail ← load list.tail
      set_prev node tail.prev
      set_next tail.prev node
      set_prev list.tail node
      (if list.count == 0 then set_next list.head node else pure tt)
      pure (true, incremented list)
  ]

unfoldable pub remove_node : LinkedList → Ptr → Cmd (Ptr × LinkedList)
remove_node list place = do
  node ← load place
  set_next node.prev node.next
  set_prev node.next node.prev
  free_node place
  pure (node.element, decremented list)

-- A search is by a test of the element, by an id that is not negative, or by either.
abbrev pub is_found : Option (Ptr → Bool) → Option ℕ → Node → Bool
is_found test id n =
    elim test [ none ↦ false | some f ↦ f n.element ]
    || elim id [ none ↦ false | some i ↦ n.id == i ]

-- The loop of the searches, from `cur`: the place that is found, NULL if none is. There is no
-- result either when the fuel runs out.
unfoldable pub find_from : ℕ → Option (Ptr → Bool) → Option ℕ → Ptr → Cmd Ptr
find_from zero test id cur h = none
find_from (suc fuel) test id cur h = elim (load cur h) [
  | none ↦ none
  | some (n, _) ↦
      let rest = find_from fuel test id n.next h in
      if n.next == null then some (null, h) else if is_found test id n then some (cur, h) else rest
]

unfoldable pub find_node : ℕ → LinkedList → Option ℕ → Option (Ptr → Bool) → Cmd Ptr
unfolding find_from
find_node fuel list id test = do head ← load list.head; find_from fuel test id head.next

unfoldable pub find_element : ℕ → LinkedList → Option ℕ → Option (Ptr → Bool) → Cmd Ptr
unfolding find_node
find_element fuel list id test = do
  place ← find_node fuel list id test
  if place == null then pure null else do n ← load place; pure n.element

-- This search starts at the head, which holds no element.
unfoldable pub remove_element :
    ℕ → LinkedList → Option ℕ → Option (Ptr → Bool) → Cmd (Ptr × LinkedList)
unfolding find_from remove_node
remove_element fuel list id test = do
  place ← find_from fuel test id list.head
  if place == null then pure (null, list) else remove_node list place

abbrev first_alloc : List (Option Ptr) → Option Ptr
first_alloc [] = none
first_alloc (a ∷ rest) = a

abbrev later_allocs : List (Option Ptr) → List (Option Ptr)
later_allocs [] = []
later_allocs (a ∷ rest) = rest

-- A new node before `cur`, and then the rest. A failed allocation is followed by a fault.
unfoldable pub insert_before : Option Ptr → Ptr → Ptr → ℕ → Cmd LinkedList → Cmd LinkedList
insert_before alloc cur element id rest = do
  new ← create_node alloc element id
  elim new [
    | none ↦ λ h. none
    | some new ↦ do
      set_next new cur
      n ← load cur
      set_prev new n.prev
      set_next n.prev new
      set_prev cur new
      rest
  ]

-- Before each node that is found a new one is inserted. A node that was found by its id makes every
-- later one count as found too. The result of the code is always -1.
unfoldable pub insert_at_from :
    ℕ
    → Option (Ptr → Bool)
    → Option ℕ
    → Bool
    → Ptr
    → ℕ
    → List (Option Ptr)
    → Ptr
    → LinkedList
    → Cmd LinkedList
insert_at_from zero test id by_id element new_id allocs cur list h = none
insert_at_from (suc fuel) test id by_id element new_id allocs cur list h = elim (load cur h) [
  | none ↦ none
  | some (n, _) ↦
      let by_id = by_id || elim id [ none ↦ false | some i ↦ n.id == i ] in
      let hit = elim test [ none ↦ false | some f ↦ f n.element ] || by_id in
      let onward = insert_at_from fuel test id by_id element new_id allocs n.next list h in
      let inserted =
        insert_before (first_alloc allocs) cur element new_id
          (λ h.
            insert_at_from fuel test id by_id element new_id (later_allocs allocs) n.next
              (incremented list) h)
          h in
      if n.next == null then some (list, h) else if hit then inserted else onward
]

-- The id that is looked for is that of the new nodes; it is given by its 32 bits.
unfoldable pub insert_at :
    ℕ → LinkedList → Ptr → ℕ → Option (Ptr → Bool) → List (Option Ptr) → Cmd LinkedList
unfolding insert_at_from
insert_at fuel list element id test allocs = do
  head ← load list.head
  insert_at_from fuel test (if ltb id (2 ^ 31) then some id else none) false element id allocs
      head.next list

-- `iterate`, with a callback that works on a state of its own and on the heap.
module _ {S : Type 0} (callback : Ptr → Ptr → S → Cmd S) where
  unfoldable pub iterate_from : ℕ → Ptr → Ptr → S → Cmd S
  iterate_from zero tail cur s h = none
  iterate_from (suc fuel) tail cur s h = elim (load cur h) [
    | none ↦ none
    | some (n, _) ↦
        let rest = (callback cur n.element s >>= iterate_from fuel tail n.next) h in
        if n.next == null || cur == tail then some (s, h) else rest
  ]

  unfoldable pub iterate : ℕ → LinkedList → S → Cmd S
  unfolding iterate_from
  iterate fuel list s = do head ← load list.head; iterate_from fuel list.tail head.next s

-- `freeNodes`, and `freeList` but for its callback on the elements.
unfoldable pub free_from : ℕ → Ptr → Cmd (Unit {0})
free_from zero cur h = none
free_from (suc fuel) cur h = elim (load cur h) [
  | none ↦ none
  | some (n, _) ↦
      let rest = (free_node cur >>= λ _. free_from fuel n.next) h in
      if n.next == null then some (tt, h) else rest
]

unfoldable pub free_nodes : ℕ → LinkedList → Cmd (Unit {0})
unfolding free_from
free_nodes fuel list = do
  head ← load list.head
  free_from fuel head.next
  free_node list.head
  free_node list.tail

-- `linked_list`: whether the structure, and where its two nodes are allocated.
unfoldable pub linked_list : Bool → Option Ptr → Option Ptr → Cmd (Option LinkedList)
linked_list false head tail = pure none
linked_list true none tail = pure none
linked_list true (some head) none = do create_node (some head) null 0; free_node head; pure none
linked_list true (some head) (some tail) = do
  create_node (some head) null 0
  create_node (some tail) null 0
  set_prev tail head
  set_next tail null
  set_next head tail
  set_prev head null
  pure (some (record { head = head; tail = tail; count = 0 }))
