-- ===== src/LinkedList/Change.antt =====
-- A node is put between two nodes of a linked list, or taken out from between them.
use ccsds_file_delivery_prot.Common.{◌≡◌, ◌≢◌, sym, none, some, List, ◌∷◌, ◌++◌}
use ccsds_file_delivery_prot.LinkedList.{Ptr, null, Heap}
use ccsds_file_delivery_prot.LinkedList.Links.{
  Cell, linked, first_place, last_place, Links, Away, Apart, Links-frame, SameAt-Away, Links-append,
  Links-front, Links-back, Away-append, Away-front, Away-back, Distinct, Apart-append, Apart-front,
  Apart-back, Apart-Distinct, Distinct-head, Distinct-tail, Distinct-cons,
}

module _ (prev next : Ptr) (xs ys : List Cell) (a b n : Cell) where
  abbrev pub without : List Cell
  without = xs ++ (a ∷ b ∷ ys)

  abbrev pub with_node : List Cell
  with_node = xs ++ (a ∷ n ∷ b ∷ ys)

  -- The two neighbours point to the new node, and nothing else has changed.
  pub record Inserted (h h' : Heap) : Type 0 where
    pub here : h'.cell n.place ≡ some (linked n b.place a.place)
    pub before : h'.cell a.place ≡ some (linked a n.place (last_place prev xs))
    pub behind : h'.cell b.place ≡ some (linked b (first_place ys next) n.place)
    pub same : (q : Ptr) → q ≢ n.place → q ≢ a.place → q ≢ b.place → h'.cell q ≡ h.cell q

  -- The two neighbours point to each other, and the node is gone.
  pub record Removed (h h' : Heap) : Type 0 where
    pub gone : h'.cell n.place ≡ none
    pub before : h'.cell a.place ≡ some (linked a b.place (last_place prev xs))
    pub behind : h'.cell b.place ≡ some (linked b (first_place ys next) a.place)
    pub same : (q : Ptr) → q ≢ n.place → q ≢ a.place → q ≢ b.place → h'.cell q ≡ h.cell q

  module _ (apart : Apart without) (away : Away n.place without) where
    ends_Distinct : Distinct xs (a ∷ b ∷ ys)
    ends_Distinct = Apart-Distinct xs (a ∷ b ∷ ys) apart

    n_apart : Away n.place xs
    n_apart = Away-front n.place xs (a ∷ b ∷ ys) away

    pub insert-Links :
        (h h' : Heap) → Inserted h h' → Links h prev without next → Links h' prev with_node next
    insert-Links h h' i l =
        let (_, (_, a_ys), (_, b_ys, _)) = Apart-back xs (a ∷ b ∷ ys) apart in
        let (_, (_, n_ys)) = Away-back n.place xs (a ∷ b ∷ ys) away in
        let (_, (_, back)) = Links-back h prev xs (a ∷ b ∷ ys) next l in
        Links-append h' prev xs (a ∷ n ∷ b ∷ ys) next
          (Links-frame h h' prev xs a.place
            (SameAt-Away h h' n.place a.place b.place xs i.same n_apart
              (Distinct-head xs (b ∷ ys) a ends_Distinct)
              (Distinct-head xs ys b (Distinct-tail xs (b ∷ ys) a ends_Distinct)))
            (Links-front h prev xs (a ∷ b ∷ ys) next l))
          (
            i.before,
            (
              i.here,
              (
                i.behind,
                Links-frame h h' b.place ys next
                    (SameAt-Away h h' n.place a.place b.place ys i.same n_ys a_ys b_ys) back,
              ),
            ),
          )

    pub remove-Links :
        (h h' : Heap) → Removed h h' → Links h prev with_node next → Links h' prev without next
    remove-Links h h' r l =
        let (_, (_, a_ys), (_, b_ys, _)) = Apart-back xs (a ∷ b ∷ ys) apart in
        let (_, (_, n_ys)) = Away-back n.place xs (a ∷ b ∷ ys) away in
        let (_, (_, (_, back))) = Links-back h prev xs (a ∷ n ∷ b ∷ ys) next l in
        Links-append h' prev xs (a ∷ b ∷ ys) next
          (Links-frame h h' prev xs a.place
            (SameAt-Away h h' n.place a.place b.place xs r.same n_apart
              (Distinct-head xs (b ∷ ys) a ends_Distinct)
              (Distinct-head xs ys b (Distinct-tail xs (b ∷ ys) a ends_Distinct)))
            (Links-front h prev xs (a ∷ n ∷ b ∷ ys) next l))
          (
            r.before,
            (
              r.behind,
              Links-frame h h' b.place ys next
                  (SameAt-Away h h' n.place a.place b.place ys r.same n_ys a_ys b_ys) back,
            ),
          )

    pub insert-Apart : n.place ≢ null → Apart with_node
    insert-Apart here =
        let (na, (ab, a_ys), rest) = Apart-back xs (a ∷ b ∷ ys) apart in
        let (an, (bn, n_ys)) = Away-back n.place xs (a ∷ b ∷ ys) away in
        Apart-append xs (a ∷ n ∷ b ∷ ys) (Apart-front xs (a ∷ b ∷ ys) apart)
          (na, ((λ e. an (sym e)), (ab, a_ys)), (here, (bn, n_ys), rest))
          (Distinct-cons xs (n ∷ b ∷ ys) a (Distinct-head xs (b ∷ ys) a ends_Distinct)
            (Distinct-cons xs (b ∷ ys) n n_apart (Distinct-tail xs (b ∷ ys) a ends_Distinct)))

  -- A list with the node is one without it, and the node away from that.
  pub Apart-without : Apart with_node → Apart without × Away n.place without
  Apart-without apart =
      let d = Apart-Distinct xs (a ∷ n ∷ b ∷ ys) apart in
      let (na, (an, (ab, a_ys)), (_, n_rest, rest)) = Apart-back xs (a ∷ n ∷ b ∷ ys) apart in
      let d_b = Distinct-tail xs (b ∷ ys) n (Distinct-tail xs (n ∷ b ∷ ys) a d) in
      (
        Apart-append xs (a ∷ b ∷ ys) (Apart-front xs (a ∷ n ∷ b ∷ ys) apart) (na, (ab, a_ys), rest)
            (Distinct-cons xs (b ∷ ys) a (Distinct-head xs (n ∷ b ∷ ys) a d) d_b),
        Away-append n.place xs (a ∷ b ∷ ys)
            (Distinct-head xs (b ∷ ys) n (Distinct-tail xs (n ∷ b ∷ ys) a d))
            ((λ e. an (sym e)), n_rest),
      )
