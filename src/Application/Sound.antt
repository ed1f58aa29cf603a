-- ===== src/Application/Sound.antt =====
-- What holds of the requests of a server or a client between packets, and how one of them is found.
use ccsds_file_delivery_prot.Common.{
  ℕ, ◌≡◌, ◌≢◌, ◌≤◌, ap, sym, ◌∙◌, subst, arith, inl, inr, ◌⊎◌, if◌then◌else◌, Bool, true, false,
  Option, none, some, u32, List, [], ◌∷◌, ◌++◌, All, All-append, Bool-cases,
}
use ccsds_file_delivery_prot.Packet.Header.{PduHeader}
use ccsds_file_delivery_prot.Request.{Request}
use ccsds_file_delivery_prot.Application.{
  Cell, Requests, Access, load, find_request, find, all_requests,
}
use ccsds_file_delivery_prot.Application.Rounds.{IsFree, Distinct, load-IsFree}

module _ {A : Type 0} (access : Access A) where
  -- No two requests have the same ids.
  abbrev pub DistinctIds : List (Cell A) → Type 0
  DistinctIds [] = Unit {0}
  DistinctIds (c ∷ cs) =
      All
        (λ d.
          find_request (access.request d.element).dest_cfdp_id
            (access.request d.element).transaction_sequence_number (access.request c.element)
          ≡ false)
        cs
      × DistinctIds cs

  abbrev pub IsCurrent : List (Cell A) → Option ℕ → Type 0
  IsCurrent cells none = Unit {0}
  IsCurrent cells (some p) = (a : A) × (load p cells ≡ some a)

  -- The requests have different addresses, those of the list different ids, and the current one, if
  -- any, is allocated.
  pub record IsSound (rs : Requests A) : Type 0 where
    pub addresses : Distinct (all_requests rs)
    pub ids : DistinctIds rs.request_list
    pub current : IsCurrent (all_requests rs) rs.current_request

  -- A new request is at a free address, and is for the ids of the header.
  abbrev pub Makes : (PduHeader → Option (Cell A)) → Requests A → Type 0
  Makes new rs =
      (header : PduHeader) (c : Cell A)
      → new header ≡ some c
      → IsFree c.address (all_requests rs)
        × ((access.request c.element).dest_cfdp_id ≡ header.source_id)
        × ((access.request c.element).transaction_sequence_number
            ≡ u32 header.transaction_sequence_number)

  -- At most one request is new, at a free address: at the end of the list if there is memory for its
  -- node, or else outside of it.
  abbrev pub Grows : Bool → Requests A → Requests A → Type 0
  Grows pushes rs rs' =
      ((rs'.request_list ≡ rs.request_list) × (rs'.unlisted ≡ rs.unlisted))
      ⊎ ((c : Cell A) × IsFree c.address (all_requests rs)
          × (rs'.request_list ≡ (if pushes then rs.request_list ++ (c ∷ []) else rs.request_list))
          × (rs'.unlisted ≡ (if pushes then rs.unlisted else rs.unlisted ++ (c ∷ []))))

  -- What a header comes to: nothing is changed, or the current request is one with the header's ids,
  -- and there is one more request at most.
  abbrev pub IsRouted : Bool → Requests A → PduHeader → Option ℕ → Requests A → Type 0
  IsRouted pushes rs header none rs' = rs' ≡ rs
  IsRouted pushes rs header (some i) rs' =
      (4 ≤ i)
      × (i ≡ header.reserved_space_for_header)
      × (p : ℕ) × (a : A) × (rs'.current_request ≡ some p)
      × (load p (all_requests rs') ≡ some a)
      × ((access.request a).dest_cfdp_id ≡ header.source_id)
      × (u32 (access.request a).transaction_sequence_number
          ≡ u32 header.transaction_sequence_number)
      × Grows pushes rs rs'

  pub find_request_ids :
      (source number : ℕ) (req : Request)
      → find_request source number req ≡ true
      → (req.dest_cfdp_id ≡ source) × (req.transaction_sequence_number ≡ number)
  unfolding find_request
  find_request_ids source number req e = (ground (arith, e), ground (arith, e))

  pub find_found :
      (source number : ℕ) (cells : List (Cell A)) (c : Cell A)
      → Distinct cells
      → find access source number cells ≡ some c
      → (load c.address cells ≡ some c.element)
        × (find_request source number (access.request c.element) ≡ true)
  find_found source number [] c distinct e = absurd (cc e)
  find_found source number (d ∷ ds) c (first, distinct) e =
      elim (Bool-cases (find_request source number (access.request d.element))) [
        | inl same ↦
            let here : d ≡ c = ground (arith, same, e) in
            subst
              (λ (x : Cell A).
                (load x.address (d ∷ ds) ≡ some x.element)
                × (find_request source number (access.request x.element) ≡ true))
              here (ground arith, same)
        | inr other ↦
            let (at, is_for) = find_found source number ds c distinct (ground (arith, other, e)) in
            let away : d.address ≢ c.address = λ same. absurd (
              cc
                (sym at ∙ ap (λ (p : ℕ). load p ds) (sym same) ∙ load-IsFree d.address ds first)) in
            (ground (arith, away, at), is_for)
      ]

  pub find-none :
      (source number : ℕ) (cells : List (Cell A))
      → find access source number cells ≡ none
      → All (λ d. find_request source number (access.request d.element) ≡ false) cells
  find-none source number [] e = tt
  find-none source number (d ∷ ds) e =
      elim (Bool-cases (find_request source number (access.request d.element))) [
        | inl same ↦ absurd (ground (arith, same, e))
        | inr other ↦ (other, find-none source number ds (ground (arith, other, e)))
      ]

  pub DistinctIds-append :
      (cells : List (Cell A)) (c : Cell A)
      → DistinctIds cells
      → All
          (λ d.
            find_request
              (access.request c.element).dest_cfdp_id
              (access.request c.element).transaction_sequence_number
              (access.request d.element)
            ≡ false)
          cells
      → DistinctIds (cells ++ (c ∷ []))
  DistinctIds-append [] c distinct other = (tt, tt)
  DistinctIds-append (d ∷ ds) c (first, distinct) (here, other) =
      (All-append _ ds c first here, DistinctIds-append ds c distinct other)
