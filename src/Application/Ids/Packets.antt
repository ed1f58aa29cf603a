-- ===== src/Application/Ids/Packets.antt =====
-- protocol_handler.c: the handlers of packets leave a request's ids alone.
use ccsds_file_delivery_prot.Common.{
  ℕ, ◌+◌, ◌==◌, refl, ◌∙◌, subst, arith, inl, inr, ◌&&◌, true, Option, none, some, List, ◌++◌,
  Option-cases, if-cases,
}
use ccsds_file_delivery_prot.Wire.{Buffer, Endian}
use ccsds_file_delivery_prot.Packet.Header.{PduHeader}
use ccsds_file_delivery_prot.Packet.Directives.{
  data_pdu, eof_pdu, ack_pdu, meta_data_pdu, get_eof_from_packet,
}
use ccsds_file_delivery_prot.Request.{Request, File, Turn}
use ccsds_file_delivery_prot.Server.{send_ack}
use ccsds_file_delivery_prot.File.Missing.{Alloc}
use ccsds_file_delivery_prot.Message.{Message, get_messages_from_packet}
use ccsds_file_delivery_prot.Metadata.{process_messages, parse_metadata_packet}
use ccsds_file_delivery_prot.Packet.Fields.{get_data_length}
use ccsds_file_delivery_prot.Reception.{Port, Disk, process_data}
use ccsds_file_delivery_prot.Incoming
use ccsds_file_delivery_prot.Incoming.{
  Storage, Receiver, returning, process_file_request_metadata, build_temperary_file, take_eof,
  process_pdu_eof, finish_metadata, answer_metadata, process_metadata, receive_finished_ack,
  find_file, receive_data, receive_directive, parse_packet_server, is_null,
}
use ccsds_file_delivery_prot.Incoming.Handler.{Ensures}
use ccsds_file_delivery_prot.Application.Ids.{SameIds, send_ack-SameIds}

-- A saved state is that of the request it is read for.
abbrev pub SavedIds : Storage → Type 0
SavedIds disk = (header : PduHeader) (req : Request) → SameIds req (disk.saved header req).1

abbrev Keeps : Request → Option Request → Type 0
Keeps req = Ensures (SameIds req)

abbrev pub KeepsReceiver : Request → Option Receiver → Type 0
KeepsReceiver req = Ensures (λ r. SameIds req r.turn.request)

module _ (disk : Storage) where
  process_file_request_metadata-SameIds :
      (req : Request) → Keeps req (process_file_request_metadata disk req)
  unfolding process_file_request_metadata
  process_file_request_metadata-SameIds req = ground arith

  build_temperary_file-SameIds :
      (size : ℕ) (req : Request) → Keeps req (build_temperary_file disk size req)
  unfolding build_temperary_file
  build_temperary_file-SameIds size req = ground arith

  take_eof-SameIds :
      (checksum size : ℕ) (req req' : Request)
      → SameIds req req'
      → Keeps req (take_eof checksum size req')
  unfolding take_eof
  take_eof-SameIds checksum size req req' same = ground (arith, same)

  process_pdu_eof-SameIds :
      (host : Endian) (packet : Buffer) (i : ℕ) (req : Request)
      → Keeps req (process_pdu_eof host disk packet i req)
  unfolding process_pdu_eof
  process_pdu_eof-SameIds host packet i req =
      let eof = get_eof_from_packet host packet i in
      let P : Option Request → Type 0 = Keeps req in
      if-cases P (is_null req.file && req.local_entity.metadata_recv_indication)
        (λ h. elim (Option-cases (build_temperary_file disk eof.file_size req)) [
          | inl e ↦ rw e tt
          | inr (built, e) ↦ rw e (
              take_eof-SameIds eof.checksum eof.file_size req built
                (subst (Keeps req) e (build_temperary_file-SameIds eof.file_size req)))
        ])
        (λ h. take_eof-SameIds eof.checksum eof.file_size req req (refl, refl))

  finish_metadata-SameIds : (r : Receiver) → KeepsReceiver r.turn.request (finish_metadata disk r)
  unfolding finish_metadata
  finish_metadata-SameIds r = ground (arith, process_file_request_metadata-SameIds r.turn.request)

  Keeps-receiver :
      (a b : Request) (o : Option Receiver) → SameIds a b → KeepsReceiver b o → KeepsReceiver a o
  Keeps-receiver a b none same kept = tt
  Keeps-receiver a b (some r) (source, number) (source', number') =
      (source' ∙ source, number' ∙ number)

module _ (host : Endian) (disk : Storage) (port : Port) (fuel : ℕ) (alloc : Alloc)
    (my_cfdp_id : ℕ) where
  answer_metadata-SameIds :
      (req : Request) (r : Receiver)
      → KeepsReceiver req (answer_metadata host disk port fuel alloc my_cfdp_id req r)
  unfolding answer_metadata process_messages
  answer_metadata-SameIds req r =
      let (started, left) = process_messages my_cfdp_id req in
      let t : Turn = record r.turn { request = left } in
      let acked : Receiver = record r {
        turn = send_ack host meta_data_pdu t;
        started = r.started ++ started;
      } in
      Keeps-receiver disk req acked.turn.request (finish_metadata disk acked)
        (send_ack-SameIds host meta_data_pdu t) (finish_metadata-SameIds disk acked)

  with_messages-SameIds :
      (a req : Request) (r : Receiver) (o : Option (ℕ × List Message))
      → SameIds a req
      → KeepsReceiver a (elim o [
        | none ↦ none
        | some (_, messages) ↦
            answer_metadata host disk port fuel alloc my_cfdp_id
              (record req { messages_to_user = messages })
              r
      ])
  with_messages-SameIds a req r none same = tt
  with_messages-SameIds a req r (some (_, messages)) same =
      let given : Request = record req { messages_to_user = messages } in
      Keeps-receiver disk a given (answer_metadata host disk port fuel alloc my_cfdp_id given r)
        same (answer_metadata-SameIds given r)

  process_metadata-SameIds :
      (packet : Buffer) (i : ℕ) (r : Receiver)
      → KeepsReceiver r.turn.request
          (process_metadata host disk port fuel alloc my_cfdp_id packet i r)
  unfolding process_metadata parse_metadata_packet
  process_metadata-SameIds packet i r =
      let a = r.turn.request in
      let begun : Request = record a {
        local_entity = record a.local_entity { metadata_recv_indication = true };
      } in
      let parsed = parse_metadata_packet host packet i begun in
      with_messages-SameIds a parsed.1 r
        (get_messages_from_packet host fuel packet parsed.0 (get_data_length host packet)
          parsed.1.messages_to_user)
        (refl, refl)

  with_file-SameIds :
      (a req : Request) (r : Receiver) (o : Option (Option File × Disk))
      → SameIds a req
      → KeepsReceiver a (elim o [
        | none ↦ none
        | some (file, contents) ↦
            some (record (Incoming.with_request r (record req { file = file })) { disk = contents })
      ])
  with_file-SameIds a req r none same = tt
  with_file-SameIds a req r (some (file, contents)) same = same

  found_file-SameIds :
      (packet : Buffer) (i data_len : ℕ) (a : Request) (r : Receiver) (o : Option Request)
      → Keeps a o
      → KeepsReceiver a (elim o [
        | none ↦ none
        | some req ↦ elim (process_data host port fuel alloc packet i data_len req.file r.disk) [
          | none ↦ none
          | some (file, contents) ↦
              some
                (record (Incoming.with_request r (record req { file = file })) { disk = contents })
        ]
      ])
  found_file-SameIds packet i data_len a r none kept = tt
  found_file-SameIds packet i data_len a r (some req) kept =
      with_file-SameIds a req r
        (process_data host port fuel alloc packet i data_len req.file r.disk) kept

  find_file-SameIds :
      (header : PduHeader) (req : Request)
      → SavedIds disk
      → Keeps req (find_file host disk port fuel alloc my_cfdp_id header req)
  unfolding find_file
  find_file-SameIds header req saved =
      let (is_saved, saved_req) = disk.saved header req in
      ground
        (arith, saved header req, build_temperary_file-SameIds disk 1_000 (disk.saved header req).1)

  receive_data-SameIds :
      (packet : Buffer) (i data_len : ℕ) (header : PduHeader) (r : Receiver)
      → SavedIds disk
      → KeepsReceiver r.turn.request
          (receive_data host disk port fuel alloc my_cfdp_id packet i data_len header r)
  unfolding receive_data
  receive_data-SameIds packet i data_len header r saved =
      found_file-SameIds packet i data_len r.turn.request r
        (find_file host disk port fuel alloc my_cfdp_id header r.turn.request)
        (find_file-SameIds header r.turn.request saved)

  with_eof-SameIds :
      (a : Request) (r : Receiver) (o : Option Request)
      → Keeps a o
      → KeepsReceiver a (elim o [ none ↦ none | some req ↦ some (Incoming.with_request r req) ])
  with_eof-SameIds a r none kept = tt
  with_eof-SameIds a r (some req) kept = kept

  receive_finished_ack-SameIds :
      (packet : Buffer) (i : ℕ) (req : Request) → SameIds req (receive_finished_ack packet i req)
  unfolding receive_finished_ack
  receive_finished_ack-SameIds packet i req = ground arith

  receive_directive-SameIds :
      (packet : Buffer) (i code : ℕ) (r : Receiver)
      → KeepsReceiver r.turn.request
          (receive_directive host disk port fuel alloc my_cfdp_id packet i code r)
  unfolding receive_directive
  receive_directive-SameIds packet i code r =
      let local = r.turn.request.local_entity in
      let P : Option Receiver → Type 0 = KeepsReceiver r.turn.request in
      if-cases P (code == meta_data_pdu)
        (λ h.
          if-cases P local.metadata_recv_indication (λ before. (refl, refl))
            (λ first. process_metadata-SameIds packet i r))
        (λ h.
          if-cases P (code == eof_pdu)
            (λ h.
              if-cases P local.eof_recv_indication (λ before. (refl, refl))
                (λ first.
                  with_eof-SameIds r.turn.request r
                    (process_pdu_eof host disk packet i r.turn.request)
                    (process_pdu_eof-SameIds disk host packet i r.turn.request)))
            (λ h.
              if-cases P (code == ack_pdu)
                (λ h. receive_finished_ack-SameIds packet i r.turn.request) (λ h. (refl, refl))))

  -- What is claimed of the request that a callback's packet leaves.
  abbrev KeepsParsed : Request → Option (Option ℕ × Receiver) → Type 0
  KeepsParsed req = Ensures (λ (result, r). SameIds req r.turn.request)

  returning-SameIds :
      (req : Request) (given : Option ℕ) (o : Option Receiver)
      → KeepsReceiver req o
      → KeepsParsed req (returning given o)
  returning-SameIds req given none kept = tt
  returning-SameIds req given (some r) kept = kept

  -- No packet changes the ids of its request.
  pub parse_packet_server-SameIds :
      (packet : Buffer) (packet_index : ℕ) (header : PduHeader) (r : Receiver)
      → SavedIds disk
      → KeepsParsed r.turn.request
          (parse_packet_server host disk port fuel alloc my_cfdp_id packet packet_index header r)
  unfolding parse_packet_server
  parse_packet_server-SameIds packet packet_index header r saved =
      let P : Option (Option ℕ × Receiver) → Type 0 = KeepsParsed r.turn.request in
      if-cases P (packet_index == 0) (λ h. (refl, refl))
        (λ h.
          if-cases P (header.pdu_type == data_pdu)
            (λ h.
              returning-SameIds r.turn.request _ _
                (receive_data-SameIds packet packet_index _ header r saved))
            (λ h.
              returning-SameIds r.turn.request _ _
                (receive_directive-SameIds packet (packet_index + 1) _ r)))
