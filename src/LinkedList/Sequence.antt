-- ===== src/LinkedList/Sequence.antt =====
-- The sequence of cells that a list of list.c stands for, and its operations on it.
use mathlib.Core.List.{append_assoc}
use ccsds_file_delivery_prot.Common.{
  ◌+◌, ◌<◌, ◌^◌, ◌≡◌, ◌≢◌, refl, ap, sym, ◌∙◌, subst, arith, none, List, [], ◌∷◌, ◌++◌, length,
  length-append,
}
use ccsds_file_delivery_prot.LinkedList.{Ptr, null, LinkedList, Heap, incremented, decremented}
use ccsds_file_delivery_prot.LinkedList.Links.{
  Cell, Links, Away, Apart, Links-back, Away-back, Apart-back,
}
use ccsds_file_delivery_prot.LinkedList.Change.{
  without, with_node, Inserted, Removed, insert-Links, remove-Links, insert-Apart, Apart-without,
}
use ccsds_file_delivery_prot.LinkedList.Ends.{Around, Between}

-- The node before the first cell, or the one behind the last.
abbrev pub sentinel : Ptr → Cell
sentinel p = record { place = p; id = 0; element = null }

abbrev pub whole : LinkedList → List Cell → List Cell
whole l cs = sentinel l.head ∷ (cs ++ sentinel l.tail ∷ [])

-- The heap holds the cells, linked between head and tail, and the list counts them.
pub record IsList (h : Heap) (l : LinkedList) (cs : List Cell) : Type 0 where
  pub chain : Links h null (whole l cs) null
  pub apart : Apart (whole l cs)
  pub count : l.count ≡ length cs
  pub small : l.count < 2 ^ 32

-- All addresses but those of the list hold what they did.
abbrev pub SameOutside : Heap → Heap → List Cell → Type 0
SameOutside h h' cs = (q : Ptr) → Away q cs → h'.cell q ≡ h.cell q

-- A sequence with one more cell in front, without its last cell; and that cell.
abbrev pub initial : Cell → List Cell → List Cell
initial x [] = []
initial x (y ∷ ys) = x ∷ initial y ys

abbrev pub final : Cell → List Cell → Cell
final x [] = x
final x (y ∷ ys) = final y ys

pub split_last : (x : Cell) (xs zs : List Cell) → x ∷ (xs ++ zs) ≡ initial x xs ++ (final x xs ∷ zs)
split_last x [] zs = refl
split_last x (y ∷ ys) zs = ap (λ (cs : List Cell). x ∷ cs) (split_last y ys zs)

-- The first cell of a sequence that ends with `t`, and the rest.
abbrev pub first_cell : List Cell → Cell → Cell
first_cell [] t = t
first_cell (y ∷ ys) t = y

abbrev pub rest_cells : List Cell → Cell → List Cell
rest_cells [] t = []
rest_cells (y ∷ ys) t = ys ++ t ∷ []

split_first : (ys : List Cell) (t : Cell) → ys ++ t ∷ [] ≡ first_cell ys t ∷ rest_cells ys t
split_first [] t = refl
split_first (y ∷ ys) t = refl

Away-unused :
    (h : Heap) (prev : Ptr) (cs : List Cell) (next p : Ptr)
    → Links h prev cs next
    → h.cell p ≡ none
    → Away p cs
Away-unused h prev [] next p l e = tt
Away-unused h prev (c ∷ cs) next p (l, ls) e =
    ((λ same. ground (arith, ap h.cell same)), Away-unused h c.place cs next p ls e)

module _ (h : Heap) (prev next : Ptr) (xs ys : List Cell) (a b n : Cell) where
  around_of :
      Links h prev (with_node prev next xs ys a b n) next
      → Apart (with_node prev next xs ys a b n)
      → Around h prev next xs ys a b n
  around_of l apart =
      let (ea, (en, (eb, _))) = Links-back h prev xs (a ∷ n ∷ b ∷ ys) next l in
      let (na, (an, (ab, _)), (nn, (nb, _), (b_null, _, _))) =
        Apart-back xs (a ∷ n ∷ b ∷ ys) apart in
      record {
        at_a = ea;
        at_n = en;
        at_b = eb;
        a_there = na;
        n_there = nn;
        b_there = b_null;
        a_n = λ e. an (sym e);
        b_n = nb;
        a_b = λ e. ab (sym e);
      }

  between_of :
      Links h prev (without prev next xs ys a b n) next
      → Apart (without prev next xs ys a b n)
      → h.cell n.place ≡ none
      → n.place ≢ null
      → Between h prev next xs ys a b n
  between_of l apart free there =
      let (ea, (eb, _)) = Links-back h prev xs (a ∷ b ∷ ys) next l in
      let (na, (ab, _), (b_null, _, _)) = Apart-back xs (a ∷ b ∷ ys) apart in
      let (an, (bn, _)) =
        Away-back n.place xs (a ∷ b ∷ ys)
          (Away-unused h prev (without prev next xs ys a b n) next n.place l free) in
      record {
        at_a = ea;
        at_b = eb;
        at_n = free;
        a_there = na;
        n_there = there;
        b_there = b_null;
        a_n = an;
        b_n = bn;
        a_b = λ e. ab (sym e);
      }

-- The cells before and behind a place in a list, with the nodes at its ends.
module _ (l : LinkedList) (xs ys : List Cell) where
  abbrev pub fore : List Cell
  fore = initial (sentinel l.head) xs

  abbrev pub left : Cell
  left = final (sentinel l.head) xs

  abbrev pub right : Cell
  right = first_cell ys (sentinel l.tail)

  abbrev pub aft : List Cell
  aft = rest_cells ys (sentinel l.tail)

  whole-without : (n : Cell) → whole l (xs ++ ys) ≡ without null null fore aft left right n
  whole-without n =
      ap (λ (cs : List Cell). sentinel l.head ∷ cs) (append_assoc xs ys (sentinel l.tail ∷ []))
      ∙ split_last (sentinel l.head) xs (ys ++ sentinel l.tail ∷ [])
      ∙ ap (λ (cs : List Cell). fore ++ (left ∷ cs)) (split_first ys (sentinel l.tail))

  whole_with : (n : Cell) → whole l (xs ++ (n ∷ ys)) ≡ with_node null null fore aft left right n
  whole_with n =
      ap (λ (cs : List Cell). sentinel l.head ∷ cs)
        (append_assoc xs (n ∷ ys) (sentinel l.tail ∷ []))
      ∙ split_last (sentinel l.head) xs (n ∷ (ys ++ sentinel l.tail ∷ []))
      ∙ ap (λ (cs : List Cell). fore ++ (left ∷ n ∷ cs)) (split_first ys (sentinel l.tail))

  module _ (h h' : Heap) (n : Cell) where
    pub around_in : IsList h l (xs ++ (n ∷ ys)) → Around h null null fore aft left right n
    around_in i =
        around_of h null null fore aft left right n
          (subst (λ (cs : List Cell). Links h null cs null) (whole_with n) i.chain)
          (subst Apart (whole_with n) i.apart)

    pub between_in :
        IsList h l (xs ++ ys)
        → h.cell n.place ≡ none
        → n.place ≢ null
        → Between h null null fore aft left right n
    between_in i =
        between_of h null null fore aft left right n
          (subst (λ (cs : List Cell). Links h null cs null) (whole-without n) i.chain)
          (subst Apart (whole-without n) i.apart)

    pub Removed-IsList :
        IsList h l (xs ++ (n ∷ ys))
        → Removed null null fore aft left right n h h'
        → IsList h' (decremented l) (xs ++ ys) × SameOutside h h' (whole l (xs ++ (n ∷ ys)))
    Removed-IsList i r =
        let chain = subst (λ (cs : List Cell). Links h null cs null) (whole_with n) i.chain in
        let (apart, away) =
          Apart-without null null fore aft left right n (subst Apart (whole_with n) i.apart) in
        (
          record {
            chain =
                subst (λ (cs : List Cell). Links h' null cs null) (sym (whole-without n))
                  (remove-Links null null fore aft left right n apart away h h' r chain);
            apart = subst Apart (sym (whole-without n)) apart;
            count = omega (arith, i.count, i.small, length-append xs ys, length-append xs (n ∷ ys));
            small = omega (arith, i.small);
          },
          λ q out.
              let (q_a, (q_n, (q_b, _))) =
                Away-back q fore (left ∷ n ∷ right ∷ aft) (subst (Away q) (whole_with n) out) in
              r.same q (λ e. q_n (sym e)) (λ e. q_a (sym e)) (λ e. q_b (sym e)),
        )

    pub Inserted-IsList :
        IsList h l (xs ++ ys)
        → h.cell n.place ≡ none
        → n.place ≢ null
        → l.count + 1 < 2 ^ 32
        → Inserted null null fore aft left right n h h'
        → IsList h' (incremented l) (xs ++ (n ∷ ys)) × SameOutside h h' (whole l (xs ++ (n ∷ ys)))
    Inserted-IsList i free there room r =
        let chain = subst (λ (cs : List Cell). Links h null cs null) (whole-without n) i.chain in
        let apart = subst Apart (whole-without n) i.apart in
        let away =
          Away-unused h null (without null null fore aft left right n) null n.place chain free in
        (
          record {
            chain =
                subst (λ (cs : List Cell). Links h' null cs null) (sym (whole_with n))
                  (insert-Links null null fore aft left right n apart away h h' r chain);
            apart =
                subst Apart (sym (whole_with n))
                  (insert-Apart null null fore aft left right n apart away there);
            count = omega (arith, i.count, length-append xs ys, length-append xs (n ∷ ys));
            small = omega (arith, room);
          },
          λ q out.
              let (q_a, (q_n, (q_b, _))) =
                Away-back q fore (left ∷ n ∷ right ∷ aft) (subst (Away q) (whole_with n) out) in
              r.same q (λ e. q_n (sym e)) (λ e. q_a (sym e)) (λ e. q_b (sym e)),
        )
