-- ===== src/LinkedList/Search.antt =====
-- The searches of list.c: the first node that is found, in the order of the list.
use mathlib.Core.List.{append_assoc}
use ccsds_file_delivery_prot.Common.{
  ℕ, zero, suc, ◌+◌, ◌<◌, ◌≡◌, ◌≢◌, refl, ap, ◌∙◌, subst, arith, ◌==◌, if◌then◌else◌, Bool, true,
  false, Option, none, some, List, [], ◌∷◌, ◌++◌, length, All,
}
use ccsds_file_delivery_prot.LinkedList.{
  Ptr, null, Node, LinkedList, Heap, load, is_found, find_from, find_node, remove_element,
  decremented,
}
use ccsds_file_delivery_prot.LinkedList.Links.{Cell, linked, first_place, Links, Apart, Apart-back}
use ccsds_file_delivery_prot.LinkedList.Sequence.{IsList, SameOutside, whole, sentinel}
use ccsds_file_delivery_prot.LinkedList.Operations.{remove_node-IsList}

load_there : (h : Heap) (p : Ptr) (n : Node) → p ≢ null → h.cell p ≡ some n → load p h ≡ some (n, h)
unfolding load
load_there h p n there holds = ground (arith, holds)

place_there :
    (l : LinkedList) (xs ys : List Cell) (n : Cell)
    → Apart (whole l (xs ++ (n ∷ ys)))
    → n.place ≢ null
place_there l xs ys n (_, _, apart) =
    let (there, _, _) =
      Apart-back xs (n ∷ (ys ++ sentinel l.tail ∷ []))
        (subst Apart (append_assoc xs (n ∷ ys) (sentinel l.tail ∷ [])) apart) in
    there

if-both :
    (b : Bool) (p q : Ptr) (h : Heap)
    → if◌then◌else◌ {A = Option (Ptr × Heap)} b (some (p, h)) (some (q, h))
      ≡ some (if b then p else q, h)
if-both true p q h = refl
if-both false p q h = refl

module _ (test : Option (Ptr → Bool)) (id : Option ℕ) where
  abbrev pub found : Cell → Bool
  found c = is_found test id (linked c null null)

  -- The address of the first cell that is found.
  abbrev pub place_of : List Cell → Ptr
  place_of [] = null
  place_of (c ∷ cs) = if found c then c.place else place_of cs

  place_of-first :
      (xs ys : List Cell) (n : Cell)
      → All (λ c. found c ≡ false) xs
      → found n ≡ true
      → place_of (xs ++ (n ∷ ys)) ≡ n.place
  place_of-first [] ys n none_before hit = rw hit
  place_of-first (x ∷ xs) ys n (miss, none_before) hit =
      rw miss (place_of-first xs ys n none_before hit)

  found_next :
      (h : Heap) (fuel : ℕ) (n : Node) (cur : Ptr)
      → load cur h ≡ some (n, h)
      → n.next ≢ null
      → find_from (suc fuel) test id cur h
        ≡ (if is_found test id n then some (cur, h) else find_from fuel test id n.next h)
  unfolding find_from
  found_next h fuel n cur loaded more =
      let goes_on : (n.next == null) ≡ false = ground (arith, more) in
      ground (arith, loaded, goes_on)

  found_end :
      (h : Heap) (fuel : ℕ) (n : Node) (cur : Ptr)
      → load cur h ≡ some (n, h)
      → n.next ≡ null
      → find_from (suc fuel) test id cur h ≡ some (null, h)
  unfolding find_from
  found_end h fuel n cur loaded last =
      let ends : (n.next == null) ≡ true = ground (arith, last) in ground (arith, loaded, ends)

  first_there :
      (t : Cell) (cs : List Cell) → Apart (cs ++ t ∷ []) → first_place (cs ++ t ∷ []) null ≢ null
  first_there t [] (there, _, _) = there
  first_there t (c ∷ cs) (there, _, _) = there

  find_from-Links :
      (h : Heap) (t : Cell) (fuel : ℕ) (prev : Ptr) (cs : List Cell)
      → Links h prev (cs ++ t ∷ []) null
      → Apart (cs ++ t ∷ [])
      → length cs < fuel
      → find_from fuel test id (first_place (cs ++ t ∷ []) null) h ≡ some (place_of cs, h)
  find_from-Links h t zero prev cs l a enough = absurd (omega (arith, enough))
  find_from-Links h t (suc fuel) prev [] (holds, _) (there, _, _) enough =
      found_end h fuel (linked t null prev) t.place
        (load_there h t.place (linked t null prev) there holds) refl
  find_from-Links h t (suc fuel) prev (c ∷ cs) (holds, l) (there, _, a) enough =
      let next = first_place (cs ++ t ∷ []) null in
      found_next h fuel (linked c next prev) c.place
        (load_there h c.place (linked c next prev) there holds) (first_there t cs a)
      ∙ (rw (find_from-Links h t fuel c.place cs l a (omega (arith, enough)))
          (if-both (found c) c.place (place_of cs) h))

  -- `findNode` returns the address of the first node in the order of the list that is found by the
  -- test or by the id, and NULL when none is, and changes nothing.
  pub find_node-first :
      (h : Heap) (l : LinkedList) (cs : List Cell) (fuel : ℕ)
      → IsList h l cs
      → length cs < fuel
      → find_node fuel l id test h ≡ some (place_of cs, h)
  unfolding find_node
  find_node-first h l cs fuel i enough =
      let t = sentinel l.tail in
      let (holds, rest) = i.chain in
      let (there, _, apart) = i.apart in
      let loaded =
        load_there h l.head (linked (sentinel l.head) (first_place (cs ++ t ∷ []) null) null) there
          holds in
      rw (loaded, find_from-Links h t fuel l.head cs rest apart enough) refl

  -- `removeElement` takes out the first cell that is found by the test or by the id, if the head of
  -- the list, which holds NULL and the id 0, is not found itself: it returns its element and frees its
  -- node, the list stands for the other cells in their order, and no other address is touched.
  pub remove_element-first :
      (h : Heap) (l : LinkedList) (xs ys : List Cell) (n : Cell) (fuel : ℕ)
      → IsList h l (xs ++ (n ∷ ys))
      → All (λ c. found c ≡ false) (sentinel l.head ∷ xs)
      → found n ≡ true
      → length (xs ++ (n ∷ ys)) + 1 < fuel
      → (h' : Heap) × (remove_element fuel l id test h ≡ some ((n.element, decremented l), h'))
        × IsList h' (decremented l) (xs ++ ys)
        × SameOutside h h' (whole l (xs ++ (n ∷ ys)))
        × (h'.cell n.place ≡ none)
  unfolding remove_element
  remove_element-first h l xs ys n fuel i none_before hit enough =
      let t = sentinel l.tail in
      let cs = sentinel l.head ∷ (xs ++ (n ∷ ys)) in
      let (h', run, is, same, gone) = remove_node-IsList h l xs ys n i in
      let located : find_from fuel test id l.head h ≡ some (n.place, h) =
        find_from-Links h t fuel null cs i.chain i.apart (omega (arith, enough))
        ∙ ap (λ (p : Ptr). some (p, h))
            (place_of-first (sentinel l.head ∷ xs) ys n none_before hit) in
      let there : (n.place == null) ≡ false = ground (arith, place_there l xs ys n i.apart) in
      (h', rw (located, there) run, is, same, gone)
