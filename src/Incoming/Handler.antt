-- ===== src/Incoming/Handler.antt =====
-- `parse_packet_server` (protocol_handler.c): which packets set which of a transaction's indications.
use ccsds_file_delivery_prot.Common.{
  ℕ, ◌+◌, ◌≡◌, refl, ap, subst, arith, ◌==◌, not, ◌&&◌, ◌||◌, Bool, true, false, Option, none, some,
  u8, List, ◌++◌, Option-cases, if-cases, inl, inr,
}
use ccsds_file_delivery_prot.Wire.{Buffer, Endian, get32}
use ccsds_file_delivery_prot.Packet.Fields.{get_data_length}
use ccsds_file_delivery_prot.Packet.Directives.{
  eof_pdu, ack_pdu, finished_pdu, meta_data_pdu, get_ack_from_packet, get_eof_from_packet,
}
use ccsds_file_delivery_prot.File.Missing.{Alloc}
use ccsds_file_delivery_prot.Message.{get_messages_from_packet, Message}
use ccsds_file_delivery_prot.Request.{Request, Turn, ssp_sendto}
use ccsds_file_delivery_prot.Server.{send_ack, start_answer}
use ccsds_file_delivery_prot.Reception.{Port}
use ccsds_file_delivery_prot.Metadata.{process_messages, parse_metadata_packet}
use ccsds_file_delivery_prot.Incoming.{
  Storage, Receiver, with_request, process_file_request_metadata, build_temperary_file, take_eof,
  process_pdu_eof, finish_metadata, answer_metadata, process_metadata, receive_finished_ack,
  receive_directive, is_null,
}

-- What is claimed of a result, if there is one.
abbrev pub Ensures {ℓ} : {A : Type ℓ} → (A → Type 0) → Option A → Type 0
Ensures P none = Unit {0}
Ensures P (some a) = P a

-- The identity of a transaction and its indications.
abbrev Same : Request → Request → Type 0
Same a b =
    (b.local_entity ≡ a.local_entity)
    × (b.transaction_sequence_number ≡ a.transaction_sequence_number)

send_ack-Same :
    (host : Endian) (type : ℕ) (t : Turn)
    → (let req = (send_ack host type t).request in
        (req.local_entity ≡ t.request.local_entity)
        × (req.transaction_sequence_number ≡ t.request.transaction_sequence_number)
        × (req.file_size ≡ t.request.file_size))
unfolding send_ack ssp_sendto
send_ack-Same host type t =
    let (start, m) = start_answer host t.request.transmission_mode t.request in ground arith

process_file_request_metadata-Same :
    (disk : Storage) (req : Request) → Ensures (Same req) (process_file_request_metadata disk req)
unfolding process_file_request_metadata
process_file_request_metadata-Same disk req = ground arith

build_temperary_file-Same :
    (disk : Storage) (size : ℕ) (req : Request)
    → Ensures (Same req) (build_temperary_file disk size req)
unfolding build_temperary_file
build_temperary_file-Same disk size req = ground arith

parse_metadata_packet-Same :
    (host : Endian) (packet : Buffer) (i : ℕ) (req : Request)
    → Same req (parse_metadata_packet host packet i req).1
unfolding parse_metadata_packet
parse_metadata_packet-Same host packet i req = (refl, refl)

-- The indications that a request has after a PDU, given those that the PDU adds.
abbrev pub Adds : Bool → Bool → Bool → Request → Request → Type 0
Adds eof finished metadata a b =
    (b.local_entity.eof_recv_indication ≡ a.local_entity.eof_recv_indication || eof)
    × (b.local_entity.transaction_finished_indication
        ≡ a.local_entity.transaction_finished_indication || finished)
    × (b.local_entity.metadata_recv_indication
        ≡ a.local_entity.metadata_recv_indication || metadata)
    × (b.transaction_sequence_number ≡ a.transaction_sequence_number)

take_eof-Adds :
    (checksum size : ℕ) (a req : Request)
    → Same a req
    → Ensures (Adds true false false a) (take_eof checksum size req)
unfolding take_eof
take_eof-Adds checksum size a req same = ground (arith, same)

process_pdu_eof-Adds :
    (host : Endian) (disk : Storage) (packet : Buffer) (i : ℕ) (req : Request)
    → Ensures (Adds true false false req) (process_pdu_eof host disk packet i req)
unfolding process_pdu_eof
process_pdu_eof-Adds host disk packet i req =
    let eof = get_eof_from_packet host packet i in
    let P : Option Request → Type 0 = Ensures (Adds true false false req) in
    if-cases P (is_null req.file && req.local_entity.metadata_recv_indication)
      (λ h. elim (Option-cases (build_temperary_file disk eof.file_size req)) [
        | inl e ↦ rw e tt
        | inr (built, e) ↦ rw e (
            take_eof-Adds eof.checksum eof.file_size req built
              (subst (Ensures (Same req)) e (build_temperary_file-Same disk eof.file_size req)))
      ])
      (λ h. take_eof-Adds eof.checksum eof.file_size req req (refl, refl))

receive_finished_ack-Adds :
    (packet : Buffer) (i : ℕ) (req : Request)
    → Adds false
        ((get_ack_from_packet packet i).directive_code == finished_pdu)
        false
        req
        (receive_finished_ack packet i req)
unfolding receive_finished_ack
receive_finished_ack-Adds packet i req = ground arith

finish_metadata-Adds :
    (disk : Storage) (r : Receiver)
    → Ensures
        (λ r'. Adds (r.turn.request.file_size == 0) false false r.turn.request r'.turn.request)
        (finish_metadata disk r)
unfolding finish_metadata
finish_metadata-Adds disk r = ground (arith, process_file_request_metadata-Same disk r.turn.request)

-- The size that a metadata PDU states, in its data behind the directive code and the flags.
abbrev pub metadata_size : Endian → Buffer → ℕ → ℕ
metadata_size host packet i = get32 host packet (u8 (i + 1))

-- Whether the PDU is a first metadata PDU that states no size.
abbrev pub is_empty_metadata : Endian → Buffer → ℕ → ℕ → Request → Bool
is_empty_metadata host packet i code req =
    (code == meta_data_pdu)
    && (not req.local_entity.metadata_recv_indication && (metadata_size host packet i == 0))

abbrev pub is_finished_ack : Buffer → ℕ → ℕ → Bool
is_finished_ack packet i code =
    (code == ack_pdu) && ((get_ack_from_packet packet i).directive_code == finished_pdu)

Adds-as :
    (e e' f f' m m' : Bool) (a : Request) (o : Option Receiver)
    → e ≡ e'
    → f ≡ f'
    → m ≡ m'
    → Ensures (λ r. Adds e f m a r.turn.request) o
    → Ensures (λ r. Adds e' f' m' a r.turn.request) o
Adds-as e e' f f' m m' a o p q s x = rw (← p, ← q, ← s) x

Ensures-map {ℓ} :
    {A : Type ℓ} {P Q : A → Type 0} (o : Option A)
    → ((a : A) → P a → Q a)
    → Ensures P o
    → Ensures Q o
Ensures-map none f x = tt
Ensures-map (some a) f x = f a x

with_request-Adds :
    (r : Receiver) (o : Option Request)
    → Ensures (Adds true false false r.turn.request) o
    → Ensures
        (λ r'. Adds true false false r.turn.request r'.turn.request)
        (elim o [ none ↦ none | some req ↦ some (with_request r req) ])
with_request-Adds r none x = tt
with_request-Adds r (some req) x = x

Adds-from :
    (e e' : Bool) (a b c : Request)
    → e ≡ e'
    → b.local_entity ≡ a.local_entity
    → b.transaction_sequence_number ≡ a.transaction_sequence_number
    → Adds e false false b c
    → Adds e' false false a c
Adds-from e e' a b c p same number x = ground (arith, p, same, number, x)

Adds-again :
    (e : Bool) (a b c : Request)
    → Adds false false true a b
    → Adds e false false b c
    → Adds e false true a c
Adds-again e a b c x y = ground (arith, x, y)

module _ (host : Endian) (disk : Storage) (port : Port) (fuel : ℕ) (alloc : Alloc)
    (my_cfdp_id : ℕ) where
  answer_metadata-Adds :
      (req : Request) (r : Receiver)
      → Ensures
          (λ r'. Adds (req.file_size == 0) false false req r'.turn.request)
          (answer_metadata host disk port fuel alloc my_cfdp_id req r)
  unfolding answer_metadata process_messages
  answer_metadata-Adds req r =
      let t : Turn = record r.turn { request = (process_messages my_cfdp_id req).1 } in
      let (same, number, size) = send_ack-Same host meta_data_pdu t in
      let finished = finish_metadata-Adds disk (record r {
        turn = send_ack host meta_data_pdu t;
        started = r.started ++ (process_messages my_cfdp_id req).0;
      }) in
      Ensures-map
        (finish_metadata disk (record r {
          turn = send_ack host meta_data_pdu t;
          started = r.started ++ (process_messages my_cfdp_id req).0;
        }))
        (λ r' x.
          Adds-from ((send_ack host meta_data_pdu t).request.file_size == 0) (req.file_size == 0)
            req (send_ack host meta_data_pdu t).request r'.turn.request
            (ap (λ (n : ℕ). n == 0) size) same number x)
        finished

  with_messages-Adds :
      (a req : Request) (r : Receiver) (o : Option (ℕ × List Message))
      → Adds false false true a req
      → Ensures
          (λ r'. Adds (req.file_size == 0) false true a r'.turn.request)
          (elim o [
            | none ↦ none
            | some (_, messages) ↦
                answer_metadata host disk port fuel alloc my_cfdp_id
                  (record req { messages_to_user = messages })
                  r
          ])
  with_messages-Adds a req r none first = tt
  with_messages-Adds a req r (some (_, messages)) first =
      Ensures-map
        (answer_metadata host disk port fuel alloc my_cfdp_id
          (record req { messages_to_user = messages }) r)
        (λ r' x. Adds-again (req.file_size == 0) a req r'.turn.request first x)
        (answer_metadata-Adds (record req { messages_to_user = messages }) r)

  process_metadata-Adds :
      (packet : Buffer) (i : ℕ) (r : Receiver)
      → Ensures
          (λ r'. Adds (metadata_size host packet i == 0) false true r.turn.request r'.turn.request)
          (process_metadata host disk port fuel alloc my_cfdp_id packet i r)
  unfolding process_metadata parse_metadata_packet
  process_metadata-Adds packet i r =
      let a = r.turn.request in
      let begun : Request = record a {
        local_entity = record a.local_entity { metadata_recv_indication = true };
      } in
      let parsed = parse_metadata_packet host packet i begun in
      with_messages-Adds a parsed.1 r
        (get_messages_from_packet host fuel packet parsed.0 (get_data_length host packet)
          parsed.1.messages_to_user)
        (ground arith)

  pub receive_directive-Adds :
      (packet : Buffer) (i code : ℕ) (r : Receiver)
      → Ensures
          (λ r'.
            Adds
              ((code == eof_pdu) || is_empty_metadata host packet i code r.turn.request)
              (is_finished_ack packet i code)
              (code == meta_data_pdu)
              r.turn.request
              r'.turn.request)
          (receive_directive host disk port fuel alloc my_cfdp_id packet i code r)
  unfolding receive_directive
  receive_directive-Adds packet i code r =
      let local = r.turn.request.local_entity in
      let P : Option Receiver → Type 0 = Ensures (λ r'.
        Adds ((code == eof_pdu) || is_empty_metadata host packet i code r.turn.request)
          (is_finished_ack packet i code) (code == meta_data_pdu) r.turn.request r'.turn.request) in
      if-cases P (code == meta_data_pdu)
        (λ h.
          if-cases P local.metadata_recv_indication (λ before. ground (arith, h, before))
            (λ first.
              Adds-as (metadata_size host packet i == 0) _ false _ true _ r.turn.request _
                (ground (arith, h, first)) (ground (arith, h)) (ground (arith, h))
                (process_metadata-Adds packet i r)))
        (λ h1.
          if-cases P (code == eof_pdu)
            (λ h.
              if-cases P local.eof_recv_indication (λ before. ground (arith, h, before))
                (λ first.
                  Adds-as true _ false _ false _ r.turn.request _ (ground (arith, h))
                    (ground (arith, h)) (ground (arith, h))
                    (with_request-Adds r (process_pdu_eof host disk packet i r.turn.request)
                      (process_pdu_eof-Adds host disk packet i r.turn.request))))
            (λ h2.
              if-cases P (code == ack_pdu)
                (λ h3.
                  ground (arith, h1, h2, h3, receive_finished_ack-Adds packet i r.turn.request))
                (λ h3. ground (arith, h1, h2, h3))))
