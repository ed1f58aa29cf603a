-- ===== src/Incoming/Total.antt =====
-- `parse_packet_server` (protocol_handler.c) on a directive: when it returns.
use ccsds_file_delivery_prot.Common.{
  ℕ, ◌+◌, ◌≡◌, ◌≤◌, ◌<◌, ◌^◌, arith, ◌==◌, ltb, ◌&&◌, true, false, Option, none, some, ◌++◌,
  if-cases, Returns,
}
use ccsds_file_delivery_prot.Wire.{Buffer, Endian}
use ccsds_file_delivery_prot.Packet.Fields.{get_data_length}
use ccsds_file_delivery_prot.Packet.Directives.{eof_pdu, ack_pdu, meta_data_pdu}
use ccsds_file_delivery_prot.File.Missing.{Alloc, add_first_offset}
use ccsds_file_delivery_prot.Message.Total.{HasKnownMessages, get_messages_returns}
use ccsds_file_delivery_prot.Metadata.{process_messages, parse_metadata_packet}
use ccsds_file_delivery_prot.Request.{Request}
use ccsds_file_delivery_prot.Server.{send_ack}
use ccsds_file_delivery_prot.Reception.{Port}
use ccsds_file_delivery_prot.Incoming.{
  Storage, Receiver, with_first_offset, process_file_request_metadata, take_eof, process_pdu_eof,
  finish_metadata, answer_metadata, process_metadata, receive_directive, is_null,
}
use ccsds_file_delivery_prot.Incoming.Handler.{Ensures}

-- There is a result.
abbrev pub Any {ℓ} : {A : Type ℓ} → A → Type 0
Any a = Unit {0}

pub Returns-Ensures :
    {A : Type 0} (P : A → Type 0) (o : Option A) → Returns Any o → Ensures P o → Returns P o
Returns-Ensures P none fault x = fault
Returns-Ensures P (some a) returned x = x

finish_metadata-Returns :
    (disk : Storage) (r : Receiver)
    → disk.offset_memory ≡ true
    → Returns Any (finish_metadata disk r)
unfolding finish_metadata process_file_request_metadata with_first_offset add_first_offset
finish_metadata-Returns disk r memory = ground (arith, memory)

process_pdu_eof-Returns :
    (host : Endian) (disk : Storage) (packet : Buffer) (i : ℕ) (req : Request)
    → is_null req.file ≡ false
    → Returns Any (process_pdu_eof host disk packet i req)
unfolding process_pdu_eof take_eof
process_pdu_eof-Returns host disk packet i req there = ground (arith, there)

-- What makes the messages of a packet readable: they are known, and the fuel is enough for the length of
-- the data field, which has 16 bits.
pub record IsReadable (host : Endian) (fuel : ℕ) (packet : Buffer) : Type 0 where
  pub messages : HasKnownMessages packet
  pub short : get_data_length host packet < 2 ^ 16
  pub some_fuel : 1 ≤ fuel
  pub enough : get_data_length host packet ≤ fuel + 2

module _ (host : Endian) (disk : Storage) (port : Port) (fuel : ℕ) (alloc : Alloc) (my_cfdp_id : ℕ)
    (memory : disk.offset_memory ≡ true) where
  process_metadata-Returns :
      (packet : Buffer) (i : ℕ) (r : Receiver)
      → IsReadable host fuel packet
      → 4 ≤ get_data_length host packet
      → Returns Any (process_metadata host disk port fuel alloc my_cfdp_id packet i r)
  unfolding process_metadata answer_metadata
  process_metadata-Returns packet i r readable long =
      let req = r.turn.request in
      let begun : Request = record req {
        local_entity = record req.local_entity { metadata_recv_indication = true };
      } in
      let parsed = parse_metadata_packet host packet i begun in
      let ((j, messages), e) =
        get_messages_returns host packet (get_data_length host packet) long readable.short
          readable.messages fuel parsed.0 parsed.1.messages_to_user readable.some_fuel
          (omega (arith, readable.enough)) in
      let (started, req) =
        process_messages my_cfdp_id (record parsed.1 { messages_to_user = messages }) in
      rw (process_metadata, e)
        (finish_metadata-Returns disk
          (record r {
            turn = send_ack host meta_data_pdu (record r.turn { request = req });
            started = r.started ++ started;
          })
          memory)

  -- With memory for a first offset, a directive is handled unless it is an EOF that finds no file or a
  -- short metadata PDU.
  pub receive_directive-Returns :
      (packet : Buffer) (i code : ℕ) (r : Receiver)
      → IsReadable host fuel packet
      → (code == eof_pdu) && is_null r.turn.request.file ≡ false
      → (code == meta_data_pdu) && ltb (get_data_length host packet) 4 ≡ false
      → Returns Any (receive_directive host disk port fuel alloc my_cfdp_id packet i code r)
  unfolding receive_directive
  receive_directive-Returns packet i code r readable file long =
      let local = r.turn.request.local_entity in
      let P : Option Receiver → Type 0 = Returns Any in
      if-cases P (code == meta_data_pdu)
        (λ h.
          if-cases P local.metadata_recv_indication (λ before. tt)
            (λ first. process_metadata-Returns packet i r readable (ground (arith, h, long))))
        (λ h1.
          if-cases P (code == eof_pdu)
            (λ h.
              if-cases P local.eof_recv_indication (λ before. tt)
                (λ first. ground (
                  arith,
                  process_pdu_eof-Returns host disk packet i r.turn.request
                      (ground (arith, h, file)),
                )))
            (λ h2. if-cases P (code == ack_pdu) (λ h3. tt) (λ h3. tt)))
