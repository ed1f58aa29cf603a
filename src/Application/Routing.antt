-- ===== src/Application/Routing.antt =====
-- `process_pdu_header` (protocol_handler.c): which request a packet is for.
pub mod Store
use ccsds_file_delivery_prot.Common.{
  ℕ, ◌==◌, ◌≡◌, ◌≢◌, ◌≤◌, refl, ap, sym, ◌∙◌, subst, arith, inl, inr, ◌⊎◌, if◌then◌else◌, ltb, not,
  Bool, true, false, Option, none, some, u32, List, [], ◌∷◌, ◌++◌, All, All-append, Returns,
  Bool-cases, if-cases,
}
use ccsds_file_delivery_prot.Wire.{Buffer, Endian}
use ccsds_file_delivery_prot.Packet.Header.{PduHeader, get_pdu_header_from_packet}
use ccsds_file_delivery_prot.Request.{Request}
use ccsds_file_delivery_prot.Creation.{zero_header}
use ccsds_file_delivery_prot.Incoming.Handler.{Ensures}
use ccsds_file_delivery_prot.Application.{
  Cell, Requests, Access, Routed, load, find_request, find, is_current, found, failed, pushed,
  make_request, all_requests, find_or_make, unless_current, route, process_pdu_header,
}
use ccsds_file_delivery_prot.Application.Rounds.{IsFree, Distinct, load-IsFree}
use ccsds_file_delivery_prot.Application.Allocated.{
  Distinct-prefix, Distinct-insert, Distinct-behind, load-insert, load-behind, load-prefix,
}
use ccsds_file_delivery_prot.Application.Sound.{
  DistinctIds, IsCurrent, IsSound, Makes, Grows, IsRouted, find_request_ids, find_found, find-none,
  DistinctIds-append,
}

-- The data of a packet stand behind the four bytes that every header has.
get_header_long :
    (host : Endian) (packet : Buffer) (h : PduHeader)
    → Ensures
        (λ i. 4 ≤ (get_pdu_header_from_packet host packet h).1.reserved_space_for_header)
        (get_pdu_header_from_packet host packet h).0
unfolding get_pdu_header_from_packet
get_header_long host packet h = ground arith

module _ {A : Type 0} (access : Access A) where
  module _ (new : PduHeader → Option (Cell A)) (pushes : Bool) (header : PduHeader)
      (rs : Requests A) (makes : Makes access new rs) (sound : IsSound access rs) where
    abbrev Sound : Routed A → Type 0
    Sound routed =
        IsSound access routed.requests
        × (routed.header ≡ header)
        × IsRouted access pushes rs routed.header routed.index routed.requests

    failed-Sound : Sound (failed access header rs)
    failed-Sound = (sound, refl, refl)

    found-Sound :
        (long : 4 ≤ header.reserved_space_for_header) (c : Cell A)
        → find access header.source_id (u32 header.transaction_sequence_number) rs.request_list
          ≡ some c
        → Sound (found access header rs c)
    found-Sound long c e =
        let (at, is_for) =
          find_found access _ _ rs.request_list c
            (Distinct-prefix rs.request_list rs.unlisted sound.addresses) e in
        let (source, number) = find_request_ids access _ _ (access.request c.element) is_for in
        let at_all = load-prefix c.address rs.request_list rs.unlisted c.element at in
        (
          record { addresses = sound.addresses; ids = sound.ids; current = (c.element, at_all) },
          refl,
          (
            long,
            refl,
            c.address,
            c.element,
            refl,
            at_all,
            source,
            omega (arith, number),
            inl (refl, refl),
          ),
        )

    made-Sound :
        (long : 4 ≤ header.reserved_space_for_header) (c : Cell A)
        → new header ≡ some c
        → find access header.source_id (u32 header.transaction_sequence_number) rs.request_list
          ≡ none
        → Sound (make_request access pushes header rs (some c))
    made-Sound long c e nowhere =
        let (free, source, number) = makes header c e in
        let others =
          subst
            (λ (n : ℕ).
              All
                (λ d.
                  find_request (access.request c.element).dest_cfdp_id n (access.request d.element)
                  ≡ false)
                rs.request_list)
            (sym number)
            (subst
              (λ (n : ℕ).
                All
                  (λ d.
                    find_request n (u32 header.transaction_sequence_number)
                      (access.request d.element)
                    ≡ false)
                  rs.request_list)
              (sym source) (find-none access _ _ rs.request_list nowhere)) in
        if-cases (λ rs'. Sound (found access header rs' c)) pushes
          (λ h.
            let at = load-insert rs.request_list rs.unlisted c free in
            (
              record {
                addresses = Distinct-insert rs.request_list rs.unlisted c sound.addresses free;
                ids = DistinctIds-append access rs.request_list c sound.ids others;
                current = (c.element, at);
              },
              refl,
              (
                long,
                refl,
                c.address,
                c.element,
                refl,
                at,
                source,
                omega (arith, number),
                inr (c, free, ground (arith, h), ground (arith, h)),
              ),
            ))
          (λ h.
            let at = load-behind rs.request_list rs.unlisted c free in
            (
              record {
                addresses = Distinct-behind rs.request_list rs.unlisted c sound.addresses free;
                ids = sound.ids;
                current = (c.element, at);
              },
              refl,
              (
                long,
                refl,
                c.address,
                c.element,
                refl,
                at,
                source,
                omega (arith, number),
                inr (c, free, ground (arith, h), ground (arith, h)),
              ),
            ))

    make-Sound :
        (long : 4 ≤ header.reserved_space_for_header) (o : Option (Cell A))
        → new header ≡ o
        → find access header.source_id (u32 header.transaction_sequence_number) rs.request_list
          ≡ none
        → Sound (make_request access pushes header rs o)
    make-Sound long none e nowhere = failed-Sound
    make-Sound long (some c) e nowhere = made-Sound long c e nowhere

    find_or_make-Sound :
        (long : 4 ≤ header.reserved_space_for_header) (is_server : Bool) (o : Option (Cell A))
        → find access header.source_id (u32 header.transaction_sequence_number) rs.request_list ≡ o
        → Sound (find_or_make access is_server new pushes header rs o)
    find_or_make-Sound long is_server (some c) e = found-Sound long c e
    find_or_make-Sound long is_server none e =
        if-cases Sound is_server (λ server. make-Sound long (new header) refl e)
          (λ client. failed-Sound)

    current_cases :
        (current : Option ℕ)
        → rs.current_request ≡ current
        → (is_current access header (all_requests rs) current ≡ some false)
          ⊎ ((p : ℕ) × (a : A) × (rs.current_request ≡ some p)
              × (load p (all_requests rs) ≡ some a)
              × (is_current access header (all_requests rs) current ≡ some true)
              × (find_request header.source_id header.transaction_sequence_number (access.request a)
                  ≡ true))
    current_cases none e = inl refl
    current_cases (some p) e =
        let (a, at) = subst (IsCurrent access (all_requests rs)) e sound.current in
        elim (Bool-cases
          (find_request header.source_id header.transaction_sequence_number (access.request a))) [
            | inl same ↦ inr (p, a, e, at, rw (is_current, at) (ap some same), same)
            | inr other ↦ inl (rw (is_current, at) (ap some other))
          ]

    unless_current-Sound :
        (long : 4 ≤ header.reserved_space_for_header) (is_server : Bool)
        → Returns Sound (
            unless_current access is_server new pushes header rs
              (is_current access header (all_requests rs) rs.current_request))
    unless_current-Sound long is_server = elim (current_cases rs.current_request refl) [
      | inl other ↦ rw other (find_or_make-Sound long is_server _ refl)
      | inr (p, a, current, at, same, is_for) ↦
          let (source, number) = find_request_ids access _ _ (access.request a) is_for in
          rw same
            (sound, refl, (long, refl, p, a, current, at, source, ap u32 number, inl (refl, refl)))
    ]

    route-Sound :
        (is_server : Bool) (my_cfdp_id packet_len : ℕ) (index : Option ℕ)
        → Ensures (λ i. 4 ≤ header.reserved_space_for_header) index
        → Returns Sound (route access is_server new pushes my_cfdp_id packet_len (index, header) rs)
    unfolding route
    route-Sound is_server my_cfdp_id packet_len none long = failed-Sound
    route-Sound is_server my_cfdp_id packet_len (some i) long =
        if-cases (Returns Sound) (not (my_cfdp_id == header.destination_id)) (λ h. failed-Sound)
          (λ h.
            if-cases (Returns Sound) (ltb packet_len header.pdu_data_field_len) (λ h. failed-Sound)
              (λ h. unless_current-Sound long is_server))

  -- For requests with different addresses, those of the list with different ids, a current one that is
  -- allocated, and a new request at a free address with the header's ids, a packet's header is always
  -- processed, and the requests have these properties again. On an error nothing is changed; else the
  -- current request is then an allocated one with the source id of the header and, modulo 2 ^ 32, its
  -- transaction number, and there is at most one more request: at the end of the list if there is
  -- memory for its node, and outside of the list if not. The data stand behind four bytes at least.
  pub process_pdu_header-IsSound :
      (host : Endian) (is_server : Bool) (new : PduHeader → Option (Cell A)) (pushes : Bool)
      (my_cfdp_id packet_len : ℕ) (packet : Buffer) (rs : Requests A)
      → Makes access new rs
      → IsSound access rs
      → Returns
          (λ routed.
            IsSound access routed.requests
            × (routed.header ≡ (get_pdu_header_from_packet host packet zero_header).1)
            × IsRouted access pushes rs routed.header routed.index routed.requests)
          (process_pdu_header access host is_server new pushes my_cfdp_id packet_len packet rs)
  unfolding process_pdu_header
  process_pdu_header-IsSound host is_server new pushes my_cfdp_id packet_len packet rs makes sound =
      let (index, header) = get_pdu_header_from_packet host packet zero_header in
      route-Sound new pushes header rs makes sound is_server my_cfdp_id packet_len index
        (get_header_long host packet zero_header)
