-- ===== src/Application/Routing/Store.antt =====
-- The request that a handler leaves is put back to its place.
use ccsds_file_delivery_prot.Common.{
  ℕ, ◌==◌, ◌≡◌, ◌≢◌, refl, ap, sym, ◌∙◌, subst, arith, inl, inr, All-map, false, some, List, [],
  ◌∷◌, ◌++◌, All, if-cases,
}
use ccsds_file_delivery_prot.Request.{Request}
use ccsds_file_delivery_prot.Application.{
  Cell, Requests, Access, load, store, find_request, all_requests,
}
use ccsds_file_delivery_prot.Application.Ids.{SameIds}
use ccsds_file_delivery_prot.Application.Rounds.{IsFree, Distinct, load_cases}
use ccsds_file_delivery_prot.Application.Allocated.{
  Distinct-prefix, load-append_cases, store-append,
}
use ccsds_file_delivery_prot.Application.Sound.{DistinctIds, IsCurrent, IsSound}

-- A request is found by its ids alone.
pub find_request-SameIds :
    (source number : ℕ) (a b : Request)
    → SameIds a b
    → find_request source number b ≡ find_request source number a
unfolding find_request
find_request-SameIds source number a b (same_source, same_number) =
    ground (arith, same_source, same_number)

module _ {A : Type 0} (p : ℕ) (a : A) where
  pub load-store_other :
      (q : ℕ) (cells : List (Cell A)) → q ≢ p → load q (store p a cells) ≡ load q cells
  load-store_other q [] other = refl
  load-store_other q (c ∷ cs) other = ground (arith, other, load-store_other q cs other)

  load-store :
      (b : A) (cells : List (Cell A)) → load p cells ≡ some b → load p (store p a cells) ≡ some a
  load-store b [] e = absurd (cc e)
  load-store b (c ∷ cs) e = elim (load_cases p c cs b e) [
    | inl (at, _) ↦ ground (arith, at)
    | inr (away, there) ↦ ground (arith, away, load-store b cs there)
  ]

  store-IsFree : (cells : List (Cell A)) → IsFree p cells → store p a cells ≡ cells
  store-IsFree [] free = refl
  store-IsFree (c ∷ cs) (here, free) = ground (arith, here, store-IsFree cs free)

  IsFree-store : (q : ℕ) (cells : List (Cell A)) → IsFree q cells → IsFree q (store p a cells)
  IsFree-store q [] free = tt
  IsFree-store q (c ∷ cs) (here, free) =
      let rest = IsFree-store q cs free in
      if-cases (IsFree q) (c.address == p) (λ h. (here, rest)) (λ h. (here, rest))

  Distinct-store : (cells : List (Cell A)) → Distinct cells → Distinct (store p a cells)
  Distinct-store [] distinct = tt
  Distinct-store (c ∷ cs) (first, distinct) =
      let rest = Distinct-store cs distinct in
      let others = IsFree-store c.address cs first in
      if-cases Distinct (c.address == p) (λ h. (others, rest)) (λ h. (others, rest))

module _ {A : Type 0} (access : Access A) (p : ℕ) (a b : A)
    (same : SameIds (access.request b) (access.request a)) where
  -- What holds of all requests for their ids holds after one of them is replaced.
  All-store :
      (P : Request → Type 0) (cells : List (Cell A))
      → ((x y : Request) → SameIds x y → P x → P y)
      → Distinct cells
      → load p cells ≡ some b
      → All (λ d. P (access.request d.element)) cells
      → All (λ d. P (access.request d.element)) (store p a cells)
  All-store P [] closed distinct at all = absurd (cc at)
  All-store P (c ∷ cs) closed (first, distinct) at (here, all) = elim (load_cases p c cs b at) [
    | inl (address, element) ↦
        let free : IsFree p cs = subst (λ (q : ℕ). IsFree q cs) address first in
        if-cases (All (λ d. P (access.request d.element))) (c.address == p)
          (λ h. (
            closed (access.request b) (access.request a) same
                (subst (λ (x : A). P (access.request x)) element here),
            subst (All (λ d. P (access.request d.element))) (sym (store-IsFree p a cs free)) all,
          ))
          (λ h. absurd (ground (arith, h, address)))
    | inr (away, there) ↦
        if-cases (All (λ d. P (access.request d.element))) (c.address == p)
          (λ h. absurd (ground (arith, h, away)))
          (λ h. (here, All-store P cs closed distinct there all))
  ]

  DistinctIds-store :
      (cells : List (Cell A))
      → Distinct cells
      → DistinctIds access cells
      → load p cells ≡ some b
      → DistinctIds access (store p a cells)
  DistinctIds-store [] distinct ids at = absurd (cc at)
  DistinctIds-store (c ∷ cs) (first, distinct) (others, ids) at = elim (load_cases p c cs b at) [
    | inl (address, element) ↦
        let free : IsFree p cs = subst (λ (q : ℕ). IsFree q cs) address first in
        if-cases (DistinctIds access) (c.address == p)
          (λ h.
            subst (λ (ds : List (Cell A)). DistinctIds access (record c { element = a } ∷ ds))
              (sym (store-IsFree p a cs free))
              (
                All-map
                    (λ d other.
                      find_request-SameIds _ _ (access.request b) (access.request a) same
                      ∙ ap
                          (λ (x : A).
                            find_request (access.request d.element).dest_cfdp_id
                              (access.request d.element).transaction_sequence_number
                              (access.request x))
                          (sym element)
                      ∙ other)
                    cs others,
                ids,
              ))
          (λ h. absurd (ground (arith, h, address)))
    | inr (away, there) ↦
        if-cases (DistinctIds access) (c.address == p) (λ h. absurd (ground (arith, h, away)))
          (λ h. (
            All-store
                (λ req.
                  find_request req.dest_cfdp_id req.transaction_sequence_number
                    (access.request c.element)
                  ≡ false)
                cs (λ x y (source, number) other. ground (arith, source, number, other)) distinct
                there others,
            DistinctIds-store cs distinct ids there,
          ))
  ]

  -- The requests stay sound when the current one is replaced.
  pub IsSound-store :
      (rs : Requests A)
      → IsSound access rs
      → rs.current_request ≡ some p
      → load p (all_requests rs) ≡ some b
      → IsSound access
          (record rs { request_list = store p a rs.request_list; unlisted = store p a rs.unlisted })
  IsSound-store rs sound current at =
      let apart = store-append p a rs.request_list rs.unlisted in
      record {
        addresses = subst Distinct apart (Distinct-store p a (all_requests rs) sound.addresses);
        ids = elim (load-append_cases p rs.request_list rs.unlisted b at) [
          | inl inside ↦
              DistinctIds-store rs.request_list
                (Distinct-prefix rs.request_list rs.unlisted sound.addresses) sound.ids inside
          | inr free ↦
              subst (DistinctIds access) (sym (store-IsFree p a rs.request_list free)) sound.ids
        ];
        current =
            subst (IsCurrent access (store p a rs.request_list ++ store p a rs.unlisted))
              (sym current)
              (
                a,
                ap (λ (l : List (Cell A)). load p l) (sym apart)
                    ∙ load-store p a b (all_requests rs) at,
              );
      }
