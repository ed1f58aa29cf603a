-- ===== src/Application/Handling.antt =====
-- `parse_packet_server` (protocol_handler.c) for a packet and the request that it is for.
use ccsds_file_delivery_prot.Common.{
  u32, ℕ, ◌+◌, ◌==◌, ◌≡◌, ◌≢◌, refl, ap, sym, ◌∙◌, subst, arith, inl, inr, ◌⊎◌, ltb, ◌&&◌,
  Bool-cases, Returns-result, true, false, Option, none, some, Returns, if-cases,
}
use ccsds_file_delivery_prot.Wire.{Buffer, Endian}
use ccsds_file_delivery_prot.Packet.Header.{PduHeader, get_pdu_header_from_packet}
use ccsds_file_delivery_prot.Creation.{zero_header}
use ccsds_file_delivery_prot.File.Missing.{Alloc}
use ccsds_file_delivery_prot.Reception.{Port}
use ccsds_file_delivery_prot.Incoming.{Storage, Receiver, parse_packet_server, is_null, returning}
use ccsds_file_delivery_prot.Incoming.Total.{IsReadable, Any}
use ccsds_file_delivery_prot.Incoming.Directive.{parse_packet_server-Adds}
use ccsds_file_delivery_prot.Packet.Directives.{data_pdu, eof_pdu, meta_data_pdu}
use ccsds_file_delivery_prot.Packet.Fields.{get_data_length}
use ccsds_file_delivery_prot.Incoming.Handler.{Ensures}
use ccsds_file_delivery_prot.Application.Ids.{SameIds}

module _ (host : Endian) (disk : Storage) (port : Port) (fuel : ℕ) (alloc : Alloc)
    (my_cfdp_id : ℕ) where
  -- A packet that cannot be handled: data, an EOF PDU for a request without a file, or a metadata PDU
  -- with less than four bytes of data.
  abbrev pub CannotHandle : Buffer → ℕ → PduHeader → Receiver → Type 0
  CannotHandle packet index header r =
      ((header.pdu_type == data_pdu) ≡ true)
      ⊎ (((packet.byte index == eof_pdu) && is_null r.turn.request.file ≡ true)
          ⊎ ((packet.byte index == meta_data_pdu) && ltb (get_data_length host packet) 4 ≡ true))

  -- The handler has no result for the packet and the request that it is for, since it cannot be handled.
  abbrev pub IsStuck : Buffer → Type 0
  IsStuck packet =
      let header = (get_pdu_header_from_packet host packet zero_header).1 in
      let index = header.reserved_space_for_header in
      (r : Receiver) × (r.turn.request.dest_cfdp_id ≡ header.source_id)
      × (u32 r.turn.request.transaction_sequence_number ≡ u32 header.transaction_sequence_number)
      × (parse_packet_server host disk port fuel alloc my_cfdp_id packet index header r ≡ none)
      × CannotHandle packet index header r

  -- A packet's data and header, and the request that it is for.
  abbrev pub IsFor : Buffer → ℕ → PduHeader → Receiver → Type 0
  IsFor packet index header r =
      (header ≡ (get_pdu_header_from_packet host packet zero_header).1)
      × (index ≡ header.reserved_space_for_header)
      × (r.turn.request.dest_cfdp_id ≡ header.source_id)
      × (u32 r.turn.request.transaction_sequence_number ≡ u32 header.transaction_sequence_number)

  pub stuck :
      (packet : Buffer) (index : ℕ) (header : PduHeader) (r given : Receiver)
      → IsFor packet index header r
      → SameIds r.turn.request given.turn.request
      → parse_packet_server host disk port fuel alloc my_cfdp_id packet index header given ≡ none
      → CannotHandle packet index header given
      → IsStuck packet
  stuck packet index header r given (same, place, source, number) (ids, numbers) e cannot =
      let to : PduHeader → Type 0 = λ h.
        (given.turn.request.dest_cfdp_id ≡ h.source_id)
        × (u32 given.turn.request.transaction_sequence_number ≡ u32 h.transaction_sequence_number)
        × (parse_packet_server host disk port fuel alloc my_cfdp_id packet
              h.reserved_space_for_header h given
            ≡ none)
        × CannotHandle packet h.reserved_space_for_header h given in
      let (ids', numbers', handled, cannot') : to
          (get_pdu_header_from_packet host packet zero_header).1 =
        subst to same (
          ids ∙ source,
          ap u32 numbers ∙ number,
          ap
                (λ (i : ℕ).
                  parse_packet_server host disk port fuel alloc my_cfdp_id packet i header given)
                (sym place)
              ∙ e,
          subst (λ (i : ℕ). CannotHandle packet i header given) place cannot,
        ) in
      (given, ids', numbers', handled, cannot')

  pub parse_cases :
      (packet : Buffer) (index : ℕ) (header : PduHeader) (r : Receiver)
      → disk.offset_memory ≡ true
      → IsReadable host fuel packet
      → index ≢ 0
      → CannotHandle packet index header r
        ⊎ Returns Any
            (parse_packet_server host disk port fuel alloc my_cfdp_id packet index header r)
  parse_cases packet index header r memory readable there =
      elim (Bool-cases (header.pdu_type == data_pdu)) [
        | inl is_data ↦ inl (inl is_data)
        | inr directive ↦
            elim (Bool-cases ((packet.byte index == eof_pdu) && is_null r.turn.request.file)) [
              | inl eof ↦ inl (inr (inl eof))
              | inr file ↦
                  elim (Bool-cases
                    ((packet.byte index == meta_data_pdu) && ltb (get_data_length host packet) 4)) [
                      | inl short ↦ inl (inr (inr short))
                      | inr long ↦
                          let (x, e, _) =
                            Returns-result
                              (parse_packet_server host disk port fuel alloc my_cfdp_id packet index
                                header r)
                              (parse_packet_server-Adds host disk port fuel alloc my_cfdp_id packet
                                index header r there directive memory readable file long) in
                          inr (subst (Returns Any) (sym e) tt)
                    ]
            ]
      ]

  -- The length of a packet is returned, and not -1.
  pub parse_counts :
      (packet : Buffer) (index : ℕ) (header : PduHeader) (r : Receiver)
      → index ≢ 0
      → Ensures
          (λ (result, r'). result ≡ some (u32 (index + get_data_length host packet)))
          (parse_packet_server host disk port fuel alloc my_cfdp_id packet index header r)
  unfolding parse_packet_server
  parse_counts packet index header r there =
      let nonzero : (index == 0) ≡ false = ground (arith, there) in
      let P : Option (Option ℕ × Receiver) → Type 0 =
        Ensures (λ (result, r'). result ≡ some (u32 (index + get_data_length host packet))) in
      rw nonzero (if-cases P (header.pdu_type == data_pdu) (λ h. counted _ _) (λ h. counted _ _))
    where
      counted :
          (n : ℕ) (o : Option Receiver)
          → Ensures (λ (result, r'). result ≡ some n) (returning (some n) o)
      counted n none = tt
      counted n (some r) = refl
