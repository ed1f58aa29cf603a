-- ===== src/Sender.antt =====
-- protocol_handler.c: what the sending side does for a request. The loops run on
-- fuel; there is no result when it runs out, and none when NULL is followed. Whether another thread
-- has closed the client is asked with the number of packets sent so far.
pub mod Packet
pub mod Burst
pub mod Responses
use ccsds_file_delivery_prot.Common.{
  ℕ, zero, suc, ◌+◌, ◌-◌, ◌==◌, ltb, leb, if◌then◌else◌, Bool, true, false, ◌||◌, Option, none,
  some, u8, u32, List, [], ◌∷◌, length,
}
use ccsds_file_delivery_prot.Wire.{Buffer, Endian}
use ccsds_file_delivery_prot.Packet.Header.{PduHeader, build_pdu_header}
use ccsds_file_delivery_prot.Packet.Directives.{
  eof_pdu, finished_pdu, ack_pdu, meta_data_pdu, nak_pdu, nak_directive, build_eof_packet,
}
use ccsds_file_delivery_prot.Packet.Nak.{get_nak_packet, read_segments}
use ccsds_file_delivery_prot.File.Missing.{Offset}
use ccsds_file_delivery_prot.File.Checksum.{calc_check_sum}
use ccsds_file_delivery_prot.Request.{
  Request, File, LocalEntity, RequestProcedure, no_procedure, sending_nak_data, clean_up,
  sending_start, un_acknowledged_mode, Turn, ssp_sendto,
}
use ccsds_file_delivery_prot.Server.{send_ack}
use ccsds_file_delivery_prot.Client.{receive_ack}
use ccsds_file_delivery_prot.Metadata.{build_put_packet_metadata}
use ccsds_file_delivery_prot.Reception.{Disk, Port}
use ccsds_file_delivery_prot.Sending.{build_data_packet}

-- A request, what was sent for it, and its file on the disk.
pub record Sender : Type 0 where
  pub turn : Turn
  pub disk : Disk

abbrev pub with_request : Sender → Request → Sender
with_request s req = record s { turn = record s.turn { request = req } }

abbrev pub sent_out : Sender → Sender
sent_out s = record s { turn = ssp_sendto s.turn }

-- A `uint32_t` of the result of `build_pdu_header`.
abbrev pub start_32 : Option ℕ → ℕ
start_32 none = 0xffff_ffff
start_32 (some start) = u32 start

-- The length of a data PDU as an `int`, less the offset's four bytes.
abbrev pub data_bytes : Option ℕ → ℕ
data_bytes none = 0xffff_fffb
data_bytes (some data_len) = u32 (data_len + 0x1_0000_0000 - 4)

abbrev pub and_then : Option Sender → (Sender → Option Sender) → Option Sender
and_then none f = none
and_then (some s) f = f s

-- The header in the request's buffer, and where its data start.
unfoldable pub start_packet : Endian → ℕ → PduHeader → Request → ℕ × Request
start_packet host mode header req =
    let (start, m) = build_pdu_header host req.buff req.transaction_sequence_number mode 0 header in
    (start_32 start, record req { buff = m })

unfoldable pub resend_finished_ack : Endian → Turn → Turn
resend_finished_ack host t =
    let t = send_ack host finished_pdu t in
    record t { request = record t.request { resent_finished = u8 (t.request.resent_finished + 1) } }

unfoldable pub send_put_metadata : Endian → Turn → Turn
send_put_metadata host t =
    let (start, req) =
      start_packet host t.request.transmission_mode t.request.pdu_header t.request in
    let (_, m) = build_put_packet_metadata host req.buff start req in
    ssp_sendto (record t {
      request = record req {
        buff = m;
        local_entity = record req.local_entity { metadata_sent_indication = true };
      };
    })

unfoldable pub finish_eof : Turn → Request → Buffer → Turn
finish_eof t req m = ssp_sendto (record t {
  request = record req {
    buff = m;
    local_entity = record req.local_entity { eof_sent_indication = true };
  };
})

unfoldable pub send_eof_pdu : Endian → Turn → Option Turn
send_eof_pdu host t =
    let (start, req) =
      start_packet host t.request.transmission_mode t.request.pdu_header t.request in
    if req.file_size == 0
    then some (finish_eof t req (build_eof_packet host req.buff start 0 0))
    else elim req.file [
      | none ↦ none
      | some file ↦ some (
          finish_eof t req
            (build_eof_packet host req.buff start file.total_size file.partial_checksum))
    ]

-- What is left to do with a data PDU of `bytes` bytes of the file.
unfoldable pub count_burst : Option ℕ → ℕ → File → Option (Bool × File)
count_burst none bytes file = none
count_burst (some check_sum) bytes file =
    let next = u32 (file.next_offset_to_send + bytes) in
    some (
      next == file.total_size,
      record file {
        partial_checksum = u32 (file.partial_checksum + check_sum);
        next_offset_to_send = next;
      },
    )

abbrev pub with_turn : Sender → Option Turn → Option Sender
with_turn s none = none
with_turn s (some t) = some (record s { turn = t })

abbrev pub stop : Sender → Sender
stop s = with_request s (record s.turn.request { procedure = no_procedure })

module _ (host : Endian) (port : Port) (fuel : ℕ) where
  -- Whether the end of the file was reached; at its end nothing is built, and it is not.
  unfoldable pub create_data_burst_packets :
      Buffer → ℕ → File → ℕ → Disk → Option (Bool × File) × Buffer × Disk
  create_data_burst_packets m start file len disk =
      let (data_len, m', disk') =
        build_data_packet host port file disk m start len file.next_offset_to_send in
      let bytes = data_bytes data_len in
      let counted = count_burst (calc_check_sum host fuel m' (u32 (start + 4)) bytes) bytes file in
      if leb file.total_size file.next_offset_to_send
      then (some (false, file), m, disk)
      else (counted, m', disk')

  abbrev pub after_data : Sender → Option (Bool × File) × Buffer × Disk → Option (Bool × Sender)
  after_data s (none, m, disk) = none
  after_data s (some (is_end, file), m, disk) = some (
    is_end,
    sent_out (record (with_request s (record s.turn.request { file = some file; buff = m })) {
      disk = disk;
    }),
  )

  abbrev pub send_file_data : ℕ → Sender → Option File → Option (Bool × Sender)
  send_file_data start s none = none
  send_file_data start s (some file) =
      after_data s
        (create_data_burst_packets s.turn.request.buff start file s.turn.request.packet_len s.disk)

  -- One packet of a burst, and whether the end of the file was reached.
  unfoldable pub send_data : ℕ → Sender → Option (Bool × Sender)
  send_data start s = send_file_data start s s.turn.request.file

  abbrev pub unless_ended :
      (ℕ → Bool)
      → (Sender → Option (Bool × Sender))
      → Option (Bool × Sender)
      → Option (Bool × Sender)
  unless_ended close f none = none
  unless_ended close f (some (is_end, s)) =
      let rest = f s in
      if is_end
      then some (false, s)
      else if close (length s.turn.sent)
      then some (true, s)
      else rest

  -- The burst, and whether it was left because the client was closed.
  unfoldable pub send_burst : ℕ → (ℕ → Bool) → ℕ → Sender → Option (Bool × Sender)
  send_burst zero close start s = none
  send_burst (suc rounds) close start s =
      unless_ended close (send_burst rounds close start) (send_data start s)

  -- EOF is sent, once, and the procedure ends.
  unfoldable pub end_start : Sender → Option Sender
  end_start s = and_then (with_turn s (send_eof_pdu host s.turn)) λ s. some (stop s)

  unfoldable pub after_burst : Option (Bool × Sender) → Option Sender
  after_burst none = none
  after_burst (some (closed, s)) = if closed then some s else end_start s

  -- `acknowledged_start`, and `unacknowledged_start`: metadata and EOF are repeated there
  -- RESEND_META_TIMES and RESEND_EOF_TIMES times, which is once.
  unfoldable pub acknowledged_start : ℕ → (ℕ → Bool) → Sender → Option Sender
  acknowledged_start rounds close s =
      let (start, req) =
        start_packet host s.turn.request.transmission_mode s.turn.request.pdu_header
          s.turn.request in
      let s : Sender = record s {
        turn = send_put_metadata host (record s.turn { request = req });
      } in
      if s.turn.request.file_size == 0
      then some (stop s)
      else after_burst (send_burst rounds close start s)

  unfoldable pub unacknowledged_start : ℕ → (ℕ → Bool) → Sender → Option Sender
  unacknowledged_start rounds close s =
      let (start, req) =
        start_packet host s.turn.request.transmission_mode s.turn.request.pdu_header
          s.turn.request in
      let s : Sender = record s {
        turn = send_put_metadata host (record s.turn { request = req });
      } in
      if s.turn.request.file_size == 0
      then some (stop s)
      else after_burst (send_burst rounds close start s)

  -- `now` is the reading of the clock after the burst.
  unfoldable pub start_sequence : ℕ → (ℕ → Bool) → ℕ → Sender → Option Sender
  start_sequence rounds close now s =
      if s.turn.request.transmission_mode == un_acknowledged_mode
      then unacknowledged_start rounds close s
      else and_then (acknowledged_start rounds close s)
          λ s. some (with_request s (record s.turn.request { timeout_before_cancel = now }))

  -- The packets for one range that the receiver misses.
  unfoldable pub send_partial_from : ℕ → ℕ → ℕ → ℕ → Sender → Option Sender
  send_partial_from zero start i end s = none
  send_partial_from (suc rounds) start i end s =
      let req = s.turn.request in
      let at_i : Option Sender = elim req.file [
        | none ↦ none
        | some file ↦
            some (
              with_request s (record req { file = some (record file { next_offset_to_send = i }) }))
      ] in
      let sent = and_then at_i λ s. elim (send_data start s) [
        | none ↦ none
        | some (_, s) ↦ send_partial_from rounds start (u32 (i + s.turn.request.packet_len)) end s
      ] in
      if ltb i end then sent else some s

  unfoldable pub continue_partials_send_partials : ℕ → ℕ → Offset → Sender → Option Sender
  continue_partials_send_partials rounds start o s = send_partial_from rounds start o.start o.end s

  unfoldable pub send_partials : ℕ → ℕ → List Offset → Sender → Option Sender
  send_partials rounds start [] s = some s
  send_partials rounds start (o ∷ os) s =
      and_then (continue_partials_send_partials rounds start o s)
        λ s. send_partials rounds start os s

  unfoldable pub continue_partials_start : ℕ → Sender → Option Sender
  continue_partials_start rounds s =
      let (start, req) =
        start_packet host s.turn.request.transmission_mode s.turn.request.pdu_header
          s.turn.request in
      let s : Sender = record s {
        turn = send_put_metadata host (record s.turn { request = req });
      } in
      elim s.turn.request.file [
        | none ↦ none
        | some file ↦ and_then (send_partials rounds start file.missing_offsets s) λ s. end_start s
      ]

  -- The request is there.
  unfoldable pub user_request_handler : ℕ → (ℕ → Bool) → ℕ → Sender → Option Sender
  user_request_handler rounds close now s =
      if s.turn.request.paused then some s else elim s.turn.request.procedure [
        | sending_nak_data ↦ continue_partials_start rounds s
        | sending_start ↦ start_sequence rounds close now s
        | clean_up ↦ some s
        | no_procedure ↦ some s
      ]
