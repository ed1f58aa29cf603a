-- ===== src/LinkedList/Refinement.antt =====
-- A list of list.c, behind its operations, is a sequence of elements.
use mathlib.Core.List.{append-nil, map-append, map}
use ccsds_file_delivery_prot.Common.{
  ℕ, ◌+◌, ◌<◌, ◌^◌, ◌≡◌, ◌≢◌, refl, ap, sym, ◌∙◌, subst, arith, Bool, true, false, Option, none,
  some, List, [], ◌∷◌, ◌++◌, length, Returns, Option-cases, inl, inr,
}
use ccsds_file_delivery_prot.LinkedList.{
  Ptr, null, LinkedList, Heap, Cmd, and_then, pure, pop, insert, push, decremented, create_node,
}
use ccsds_file_delivery_prot.LinkedList.Links.{Cell}
use ccsds_file_delivery_prot.LinkedList.Sequence.{IsList, initial, final, split_last}
use ccsds_file_delivery_prot.LinkedList.Operations.{
  pop-snoc, pop-nil, insert-IsList, push-IsList, new_cell,
}

pub data ListOp : Type 0 where
  push_op : Ptr → ℕ → ListOp
  insert_op : Ptr → ℕ → ListOp
  pop_op : ListOp

-- What `ssp_alloc` returns for a node, given the memory in use.
pub record Allocator : Type 0 where
  pub ssp_alloc : Heap → Option Ptr

-- Memory that it returns was not in use.
abbrev pub Allocates : Allocator → Type 0
Allocates alloc = (h : Heap) (p : Ptr) → alloc.ssp_alloc h ≡ some p → (h.cell p ≡ none) × (p ≢ null)

-- The `int` that is returned.
abbrev as_number : Bool → ℕ
as_number true = 1
as_number false = 0

unfoldable pub run_op : Allocator → ListOp → LinkedList → Cmd (ℕ × LinkedList)
run_op alloc (push_op e id) l h =
    and_then (push (alloc.ssp_alloc h) l e id h) (λ r. pure (as_number r.0, r.1))
run_op alloc (insert_op e id) l h =
    and_then (insert (alloc.ssp_alloc h) l e id h) (λ r. pure (as_number r.0, r.1))
run_op alloc pop_op l h = pop l h

unfoldable pub run_ops : Allocator → List ListOp → LinkedList → Cmd (List ℕ × LinkedList)
run_ops alloc [] l h = some (([], l), h)
run_ops alloc (op ∷ ops) l h =
    and_then (run_op alloc op l h)
      (λ r h'. and_then (run_ops alloc ops r.1 h') (λ s. pure (r.0 ∷ s.0, s.1)))

-- Whether there is memory for a node.
abbrev found : Option Ptr → Bool
found none = false
found (some p) = true

-- The same for each of the operations, when its turn comes.
abbrev pub memory : Allocator → List ListOp → LinkedList → Heap → List Bool
memory alloc [] l h = []
memory alloc (op ∷ ops) l h =
    let rest : List Bool = elim (run_op alloc op l h) [
      | none ↦ []
      | some ((r, l'), h') ↦ memory alloc ops l' h'
    ] in
    found (alloc.ssp_alloc h) ∷ rest

-- The same on a sequence: what an operation returns and leaves, when there is memory for a node and when
-- there is none.
pub data Step : Bool → ListOp → List Ptr → ℕ → List Ptr → Type 0 where
  pushed : (e : Ptr) (id : ℕ) (es : List Ptr) → Step true (push_op e id) es 1 (es ++ (e ∷ []))
  not_pushed : (e : Ptr) (id : ℕ) (es : List Ptr) → Step false (push_op e id) es 0 es
  inserted : (e : Ptr) (id : ℕ) (es : List Ptr) → Step true (insert_op e id) es 1 (e ∷ es)
  not_inserted : (e : Ptr) (id : ℕ) (es : List Ptr) → Step false (insert_op e id) es 0 es
  popped : (b : Bool) (e : Ptr) (es : List Ptr) → Step b pop_op (es ++ (e ∷ [])) e es
  not_popped : (b : Bool) → Step b pop_op [] null []

pub data Steps : List Bool → List ListOp → List Ptr → List ℕ → List Ptr → Type 0 where
  done : (es : List Ptr) → Steps [] [] es [] es
  next :
      (b : Bool) (bs : List Bool) (op : ListOp) (ops : List ListOp) (es ds fs : List Ptr) (r : ℕ)
      (rs : List ℕ)
      → Step b op es r ds
      → Steps bs ops ds rs fs
      → Steps (b ∷ bs) (op ∷ ops) es (r ∷ rs) fs

abbrev pub elements : List Cell → List Ptr
elements cs = map (λ (c : Cell). c.element) cs

elements-snoc :
    (cs : List Cell) (n : Cell) → elements (cs ++ (n ∷ [])) ≡ elements cs ++ (n.element ∷ [])
elements-snoc cs n = map-append (λ (c : Cell). c.element) cs (n ∷ [])

-- The list stands for the elements `es`.
abbrev pub Contains : Heap → LinkedList → List Ptr → Type 0
Contains h l es = (cs : List Cell) × IsList h l cs × (elements cs ≡ es)

-- The outcome of an operation on a list of `count` elements.
abbrev pub Outcome : Bool → ListOp → ℕ → List Ptr → (ℕ × LinkedList) × Heap → Type 0
Outcome b op count es ((r, l), h) =
    (ds : List Ptr) × Step b op es r ds × Contains h l ds × (l.count < count + 2)

-- The outcome of several.
abbrev pub Outcomes : List Bool → List ListOp → List Ptr → (List ℕ × LinkedList) × Heap → Type 0
Outcomes bs ops es ((rs, l), h) = (ds : List Ptr) × Steps bs ops es rs ds × Contains h l ds

push_nowhere :
    (h : Heap) (l : LinkedList) (e : Ptr) (id : ℕ) → push none l e id h ≡ some ((false, l), h)
unfolding push create_node
push_nowhere h l e id = refl

insert_nowhere :
    (h : Heap) (l : LinkedList) (e : Ptr) (id : ℕ) → insert none l e id h ≡ some ((false, l), h)
unfolding insert create_node
insert_nowhere h l e id = refl

run_pop :
    (b : Bool) (h : Heap) (l : LinkedList) (cs : List Cell)
    → IsList h l cs
    → Returns (Outcome b pop_op l.count (elements cs)) (pop l h)
run_pop b h l [] i = rw (pop-nil h l i) ([], not_popped b, ([], i, refl), omega arith)
run_pop b h l (c ∷ cs) i =
    let split : c ∷ cs ≡ initial c cs ++ (final c cs ∷ []) =
      ap (λ (ds : List Cell). c ∷ ds) (sym (append-nil cs)) ∙ split_last c cs [] in
    let i' = subst (IsList h l) split i in
    let (h', run, is) = pop-snoc h l (initial c cs) (final c cs) i' in
    let ends : elements (c ∷ cs) ≡ elements (initial c cs) ++ ((final c cs).element ∷ []) =
      ap (λ (ds : List Cell). elements ds) split ∙ elements-snoc (initial c cs) (final c cs) in
    subst (λ (es : List Ptr). Returns (Outcome b pop_op l.count es) (pop l h)) (sym ends)
      (rw run (
        elements (initial c cs),
        popped b (final c cs).element (elements (initial c cs)),
        (initial c cs, subst (IsList h' (decremented l)) (append-nil (initial c cs)) is, refl),
        omega (arith, i.count, i.small),
      ))

module _ (alloc : Allocator) (works : Allocates alloc) where
  run_op-refines :
      (op : ListOp) (h : Heap) (l : LinkedList) (cs : List Cell)
      → IsList h l cs
      → l.count + 1 < 2 ^ 32
      → Returns (Outcome (found (alloc.ssp_alloc h)) op l.count (elements cs)) (run_op alloc op l h)
  unfolding run_op
  run_op-refines (push_op e id) h l cs i room = elim (Option-cases (alloc.ssp_alloc h)) [
    | inl nowhere ↦
        rw (nowhere, push_nowhere h l e id)
          (elements cs, not_pushed e id _, (cs, i, refl), omega arith)
    | inr (p, allocated) ↦
        let (free, there) = works h p allocated in
        let (h', run, is) = push-IsList h l p e id free there room cs i in
        rw (allocated, run)
          (
            elements cs ++ (e ∷ []),
            pushed e id _,
            (cs ++ (new_cell h l p e id free there room ∷ []), is, elements-snoc cs _),
            omega arith,
          )
  ]
  run_op-refines (insert_op e id) h l cs i room = elim (Option-cases (alloc.ssp_alloc h)) [
    | inl nowhere ↦
        rw (nowhere, insert_nowhere h l e id)
          (elements cs, not_inserted e id _, (cs, i, refl), omega arith)
    | inr (p, allocated) ↦
        let (free, there) = works h p allocated in
        let (h', run, is) = insert-IsList h l p e id free there room cs i in
        rw (allocated, run)
          (
            e ∷ elements cs,
            inserted e id _,
            (new_cell h l p e id free there room ∷ cs, is, refl),
            omega arith,
          )
  ]
  run_op-refines pop_op h l cs i room = run_pop (found (alloc.ssp_alloc h)) h l cs i

  continue_ops :
      (b : Bool) (bs : List Bool) (op : ListOp) (ops : List ListOp) (es ds : List Ptr) (r : ℕ)
      (m : Option ((List ℕ × LinkedList) × Heap))
      → Step b op es r ds
      → Returns (Outcomes bs ops ds) m
      → Returns
          (Outcomes (b ∷ bs) (op ∷ ops) es)
          (and_then {B = List ℕ × LinkedList} m (λ s. pure (r ∷ s.0, s.1)))
  continue_ops b bs op ops es ds r none step rest = rest
  continue_ops b bs op ops es ds r (some s) step (fs, steps, contains) =
      (fs, next b bs op ops es ds fs r s.0.0 step steps, contains)

  -- Pushes, inserts and pops on a list of list.c all return, and what they return and leave is what
  -- the same operations return and leave on the sequence of its elements, where a push or an insert
  -- changes nothing exactly when there is no memory for its node, as long as memory that is found was
  -- not in use and the 32 bits of the count suffice.
  pub run_ops-refines :
      (ops : List ListOp) (h : Heap) (l : LinkedList) (es : List Ptr)
      → Contains h l es
      → l.count + length ops < 2 ^ 32
      → Returns (Outcomes (memory alloc ops l h) ops es) (run_ops alloc ops l h)
  unfolding run_ops
  run_ops-refines [] h l es c room = (es, done es, c)
  run_ops-refines (op ∷ ops) h l es (cs, i, e) room =
      let b = found (alloc.ssp_alloc h) in
      let step : Returns (Outcome b op l.count es) (run_op alloc op l h) =
        subst (λ (es : List Ptr). Returns (Outcome b op l.count es) (run_op alloc op l h)) e
          (run_op-refines op h l cs i (omega arith)) in
      elim (Option-cases (run_op alloc op l h)) [
        | inl none_left ↦ absurd (subst (Returns (Outcome b op l.count es)) none_left step)
        | inr (r, ran) ↦
            let (ds, stepped, contains, bound) : Outcome b op l.count es r =
              subst (Returns (Outcome b op l.count es)) ran step in
            rw ran (
              continue_ops b (memory alloc ops r.0.1 r.1) op ops es ds r.0.0
                (run_ops alloc ops r.0.1 r.1) stepped
                (run_ops-refines ops r.1 r.0.1 ds contains (omega arith)))
      ]
