-- ===== src/Incoming/Directive.antt =====
-- `parse_packet_server` (protocol_handler.c) on a directive.
use ccsds_file_delivery_prot.Common.{
  ℕ, ◌+◌, ◌≡◌, ◌≢◌, ◌≤◌, ◌<◌, ◌^◌, refl, ap, sym, ◌∙◌, subst, arith, ◌==◌, ◌||◌, ◌&&◌, ltb, Returns,
  true, false, Option, none, some, u32,
}
use ccsds_file_delivery_prot.Wire.{Buffer, Endian}
use ccsds_file_delivery_prot.Packet.Fields.{get_data_length}
use ccsds_file_delivery_prot.Packet.Header.{PduHeader}
use ccsds_file_delivery_prot.Packet.Directives.{
  data_pdu, eof_pdu, meta_data_pdu, build_eof_packet, get_eof_from_packet,
}
use ccsds_file_delivery_prot.Packet.Directives.Eof.{eof_code, get-build_eof_packet}
use ccsds_file_delivery_prot.File.Missing.{Alloc}
use ccsds_file_delivery_prot.Request.{Request, File}
use ccsds_file_delivery_prot.Reception.{Port}
use ccsds_file_delivery_prot.Incoming.{
  Storage, Receiver, with_request, take_eof, process_pdu_eof, receive_directive, returning,
  parse_packet_server, is_null,
}
use ccsds_file_delivery_prot.Incoming.Total.{IsReadable, Returns-Ensures, receive_directive-Returns}
use ccsds_file_delivery_prot.Incoming.Handler.{
  Adds, is_empty_metadata, is_finished_ack, receive_directive-Adds,
}

Returns-result :
    (P : Receiver → Type 0) (given : Option ℕ) (o : Option Receiver)
    → Returns P o
    → Returns (λ (result, r). (result ≡ given) × P r) (returning given o)
Returns-result P given none fault = fault
Returns-result P given (some r) x = (refl, x)

module _ (host : Endian) (disk : Storage) (port : Port) (fuel : ℕ) (alloc : Alloc)
    (my_cfdp_id : ℕ) where
  parse_directive :
      (packet : Buffer) (packet_index : ℕ) (header : PduHeader) (r : Receiver)
      → packet_index ≢ 0
      → (header.pdu_type == data_pdu) ≡ false
      → parse_packet_server host disk port fuel alloc my_cfdp_id packet packet_index header r
        ≡ returning (some (u32 (packet_index + get_data_length host packet))) (
            receive_directive host disk port fuel alloc my_cfdp_id packet
              (packet_index + 1)
              (packet.byte packet_index)
              r)
  unfolding parse_packet_server
  parse_directive packet packet_index header r there is_directive =
      let nonzero : (packet_index == 0) ≡ false = ground (arith, there) in
      rw (nonzero, is_directive) refl

  -- A directive is handled, unless it is an EOF PDU for a request without a file or a metadata PDU with
  -- less than four bytes of data. It sets, of the transaction's indications, exactly these: EOF by an
  -- EOF PDU and by a first metadata PDU that states no size; metadata by a metadata PDU; finished by
  -- the acknowledgement of a finished PDU. None is ever taken back, the transaction number stays, and
  -- the length of the packet is returned. There is memory for a file's first offset, every message in
  -- the packet has a known type and none stands at its begin, the
  -- length of the data has 16 bits, and the fuel is that length less two or more.
  pub parse_packet_server-Adds :
      (packet : Buffer) (packet_index : ℕ) (header : PduHeader) (r : Receiver)
      → packet_index ≢ 0
      → (header.pdu_type == data_pdu) ≡ false
      → disk.offset_memory ≡ true
      → IsReadable host fuel packet
      → (packet.byte packet_index == eof_pdu) && is_null r.turn.request.file ≡ false
      → (packet.byte packet_index == meta_data_pdu) && ltb (get_data_length host packet) 4 ≡ false
      → (let code = packet.byte packet_index in
          Returns
            (λ (result, r').
              (result ≡ some (u32 (packet_index + get_data_length host packet)))
              × Adds
                  ((code == eof_pdu)
                    || is_empty_metadata host packet (packet_index + 1) code r.turn.request)
                  (is_finished_ack packet (packet_index + 1) code)
                  (code == meta_data_pdu)
                  r.turn.request
                  r'.turn.request)
            (parse_packet_server host disk port fuel alloc my_cfdp_id packet packet_index header r))
  parse_packet_server-Adds packet packet_index header r there is_directive memory readable file
        long =
      let code = packet.byte packet_index in
      let P : Receiver → Type 0 = λ s.
        Adds
          ((code == eof_pdu)
            || is_empty_metadata host packet (packet_index + 1) code r.turn.request)
          (is_finished_ack packet (packet_index + 1) code) (code == meta_data_pdu) r.turn.request
          s.turn.request in
      let length = some (u32 (packet_index + get_data_length host packet)) in
      let handled =
        receive_directive host disk port fuel alloc my_cfdp_id packet (packet_index + 1) code r in
      subst (Returns (λ (result, r'). (result ≡ length) × P r'))
        (sym (parse_directive packet packet_index header r there is_directive))
        (Returns-result P length handled (
          Returns-Ensures P handled
            (receive_directive-Returns host disk port fuel alloc my_cfdp_id memory packet
              (packet_index + 1) code r readable file long)
            (receive_directive-Adds host disk port fuel alloc my_cfdp_id packet (packet_index + 1)
              code r)))

  take_eof_of :
      (checksum size : ℕ) (req : Request) (file : File)
      → req.file ≡ some file
      → take_eof checksum size req
        ≡ some (record req {
          local_entity = record req.local_entity { eof_recv_indication = true };
          file = some (record file { eof_checksum = checksum; total_size = size });
        })
  unfolding take_eof
  take_eof_of checksum size req file has = ground (arith, has)

  process_pdu_eof_of :
      (packet : Buffer) (start file_size checksum : ℕ) (req : Request) (file : File)
      {condition spare : ℕ}
      → get_eof_from_packet host packet (start + 1) ≡ record {
        condition_code = condition;
        spare = spare;
        checksum = checksum;
        file_size = file_size;
      }
      → req.file ≡ some file
      → process_pdu_eof host disk packet (start + 1) req
        ≡ some (record req {
          local_entity = record req.local_entity { eof_recv_indication = true };
          file = some (record file { eof_checksum = checksum; total_size = file_size });
        })
  unfolding process_pdu_eof
  process_pdu_eof_of packet start file_size checksum req file read has =
      let has_file : is_null req.file ≡ false = ap is_null has in
      rw (has_file, read) (take_eof_of checksum file_size req file has)

  -- An EOF PDU with a size and a checksum of 32 bits that the sender builds at an offset from 3 to 245,
  -- over a byte of the buffer, is handled by a receiver that has a file and no EOF yet: the file gets
  -- the checksum and the size, EOF is indicated, nothing is sent, and nothing else changes.
  pub parse-build_eof :
      (m : Buffer) (start file_size checksum : ℕ) (header : PduHeader) (r : Receiver) (file : File)
      → 3 ≤ start
      → start + 10 < 256
      → m.byte (start + 1) < 256
      → file_size < 2 ^ 32
      → checksum < 2 ^ 32
      → (header.pdu_type == data_pdu) ≡ false
      → r.turn.request.local_entity.eof_recv_indication ≡ false
      → r.turn.request.file ≡ some file
      → (let req = r.turn.request in
          parse_packet_server host disk port fuel alloc my_cfdp_id
            (build_eof_packet host m start file_size checksum)
            start
            header
            r
          ≡ some (
            some (start + 10),
            with_request r (record req {
              local_entity = record req.local_entity { eof_recv_indication = true };
              file = some (record file { eof_checksum = checksum; total_size = file_size });
            }),
          ))
  unfolding receive_directive
  parse-build_eof m start file_size checksum header r file low high small hs hc is_directive first
        has =
      let packet = build_eof_packet host m start file_size checksum in
      let (read, length) =
        get-build_eof_packet host m start file_size checksum low high small hs hc in
      let code = eof_code host m start file_size checksum low high in
      let length' : u32 (start + get_data_length host packet) ≡ start + 10 =
        omega (arith, length) in
      let there : start ≢ 0 = λ e. absurd (omega (arith, low, e)) in
      parse_directive packet start header r there is_directive
      ∙ rw
          (
            length',
            code,
            process_pdu_eof_of packet start file_size checksum r.turn.request file read has,
            first,
          )
          refl
