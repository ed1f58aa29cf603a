-- ===== src/Message.antt =====
-- requests.c and packet.c: the messages to the user that a metadata PDU carries. Memory for them is
-- always found. A C string is the memory that it begins in.
pub mod Pieces
pub mod Values
pub mod Bodies
pub mod RoundTrip
pub mod Total
use ccsds_file_delivery_prot.Common.{
  ℕ, zero, suc, ◌+◌, ◌-◌, Bool, true, false, ltb, ◌==◌, ◌&&◌, if◌then◌else◌, Option, none, some, u8,
  u16, u32, List, [], ◌∷◌, ◌++◌, length,
}
use ccsds_file_delivery_prot.Wire.{Buffer, Bytes, Endian, put, memcpy, at}
use ccsds_file_delivery_prot.Packet.Ids.{copy_id_lv_to_packet, copy_id_lv_from_packet}

abbrev pub proxy_put_request : ℕ
proxy_put_request = 0

abbrev pub continue_partial : ℕ
continue_partial = 10

-- The bytes of a list, and the first `n` bytes behind a pointer.
abbrev pub bytes_of : List ℕ → Bytes
bytes_of [] k = 0
bytes_of (x ∷ xs) zero = x
bytes_of (x ∷ xs) (suc k) = bytes_of xs k

abbrev pub read_bytes : ℕ → Bytes → List ℕ
read_bytes zero b = []
read_bytes (suc n) b = b 0 ∷ read_bytes n (λ k. b (suc k))

abbrev pub strnlen : Bytes → ℕ → ℕ
strnlen b zero = 0
strnlen b (suc max) = if b 0 == 0 then 0 else suc (strnlen (λ k. b (suc k)) max)

-- The string itself: its bytes before the first zero, `max` at most.
abbrev pub text : ℕ → Bytes → List ℕ
text zero b = []
text (suc max) b = if b 0 == 0 then [] else b 0 ∷ text max (λ k. b (suc k))

-- `value` is the memory that was allocated.
pub record Lv : Type 0 where
  pub length : ℕ
  pub value : List ℕ

pub record MessagePutProxy : Type 0 where
  pub destination_id : ℕ
  pub source_file_name : Lv
  pub destination_file_name : Lv

pub record MessageContPartRequest : Type 0 where
  pub destination_id : ℕ
  pub originator_id : ℕ
  pub transaction_id : ℕ

-- The message type and the value that goes with it; the other types have none.
pub data Message : Type 0 where
  put_proxy : MessagePutProxy → Message
  cont_part : MessageContPartRequest → Message
  other_message : ℕ → Message

abbrev pub message_type : Message → ℕ
message_type (put_proxy m) = proxy_put_request
message_type (cont_part m) = continue_partial
message_type (other_message type) = type

unfoldable pub create_lv : ℕ → Bytes → Lv
create_lv len value = record { length = u8 len; value = read_bytes len value }

unfoldable pub copy_lv_from_buffer : Buffer → ℕ → Lv
copy_lv_from_buffer packet start = create_lv (u8 (packet.byte start)) (at packet (start + 1))

-- `buffer` is `&packet[i]`.
unfoldable pub copy_lv_to_buffer : Buffer → ℕ → Lv → ℕ × Buffer
copy_lv_to_buffer packet i lv =
    (u16 (1 + lv.length), memcpy (put packet i lv.length) (i + 1) (bytes_of lv.value) lv.length)

abbrev pub max_path : ℕ
max_path = 255

-- The names go with their terminating zero.
unfoldable pub create_message_put_proxy : ℕ → Bytes → Bytes → MessagePutProxy
create_message_put_proxy beneficial_cfid source_name dest_name = record {
  destination_file_name = create_lv (strnlen dest_name max_path + 1) dest_name;
  source_file_name = create_lv (strnlen source_name max_path + 1) source_name;
  destination_id = u32 beneficial_cfid;
}

unfoldable pub create_message_cont_partial_request : ℕ → ℕ → ℕ → MessageContPartRequest
create_message_cont_partial_request beneficial_cfid originator_id transaction_id = record {
  destination_id = u32 beneficial_cfid;
  originator_id = u32 originator_id;
  transaction_id = u32 transaction_id;
}

-- The messages of the request, after the call.
unfoldable pub add_proxy_message_to_request : ℕ → Bytes → Bytes → List Message → List Message
add_proxy_message_to_request beneficial_cfid source_name dest_name messages_to_user =
    messages_to_user
    ++ (put_proxy (create_message_put_proxy beneficial_cfid source_name dest_name) ∷ [])

unfoldable pub add_cont_partial_message_to_request : ℕ → ℕ → ℕ → List Message → List Message
add_cont_partial_message_to_request beneficial_cfid originator_id transaction_id messages_to_user =
    messages_to_user
    ++ (cont_part (create_message_cont_partial_request beneficial_cfid originator_id transaction_id)
        ∷ [])

-- "cfdp" with its zero.
abbrev pub cfdp : List ℕ
cfdp = 0x63 ∷ 0x66 ∷ 0x64 ∷ 0x70 ∷ 0 ∷ []

-- `strncmp(&packet[i], text, length) == 0`, for a text with no zero but at its end.
abbrev pub is_text : List ℕ → Bytes → Bool
is_text [] b = true
is_text (c ∷ cs) b = (b 0 == c) && is_text cs (λ k. b (suc k))

module _ (host : Endian) where
  -- A length and an id at an index, which goes on behind it; `none` is the -1.
  unfoldable pub add_id : ℕ → Buffer × ℕ → Option ℕ × Buffer
  add_id id (packet, packet_index) =
      let (bytes, packet) = copy_id_lv_to_packet host packet packet_index id in
      elim bytes [ none ↦ (none, packet) | some n ↦ (some (u32 (packet_index + n)), packet) ]

  unfoldable pub add_lv : Lv → Buffer × ℕ → Buffer × ℕ
  add_lv lv (packet, packet_index) =
      let (n, packet) = copy_lv_to_buffer packet packet_index lv in (packet, u32 (packet_index + n))

  abbrev pub and_then : Option ℕ × Buffer → (Buffer × ℕ → Option ℕ × Buffer) → Option ℕ × Buffer
  and_then (none, packet) f = (none, packet)
  and_then (some i, packet) f = f (packet, i)

  abbrev pub written : Buffer × ℕ → Option ℕ × Buffer
  written (packet, i) = (some i, packet)

  -- The value of the message at the index behind its type; `none` for an id that is too large.
  unfoldable pub add_value : Message → Buffer × ℕ → Option ℕ × Buffer
  add_value (put_proxy m) s =
      and_then (add_id m.destination_id s)
        λ s. written (add_lv m.destination_file_name (add_lv m.source_file_name s))
  add_value (cont_part m) s =
      and_then (add_id m.destination_id s)
        λ s. and_then (add_id m.originator_id s) λ s. add_id m.transaction_id s
  add_value (other_message type) s = written s

  abbrev pub index_after : ℕ → Option ℕ × Buffer → Buffer × ℕ
  index_after old (none, packet) = (packet, old)
  index_after old (some i, packet) = (packet, i)

  -- The index stays where it was when the value cannot be written.
  unfoldable pub add_messages_callback : Message → Buffer × ℕ → Buffer × ℕ
  add_messages_callback message (packet, packet_index) =
      let packet = memcpy packet packet_index (bytes_of cfdp) 5 in
      let packet = put packet (packet_index + 5) (message_type message) in
      index_after packet_index (add_value message (packet, u32 (packet_index + 6)))

  -- `messages_to_user->iterate`.
  unfoldable pub add_messages_to_packet : List Message → Buffer × ℕ → Buffer × ℕ
  add_messages_to_packet [] s = s
  add_messages_to_packet (m ∷ ms) s = add_messages_to_packet ms (add_messages_callback m s)

  -- The index behind a message that was read, and the message. A poor format and an id that is too
  -- large have no message, and as index 0 or 2 ^ 32 - 1.
  unfoldable pub get_id : Buffer → ℕ → Option (ℕ × ℕ)
  get_id packet i = elim (copy_id_lv_from_packet host packet i) [
    | none ↦ none
    | some (id_len, id) ↦ some (u32 (i + (id_len + 1)), id)
  ]

  unfoldable pub get_put_proxy : Buffer → ℕ → Option (ℕ × MessagePutProxy)
  get_put_proxy packet i = elim (get_id packet i) [
    | none ↦ none
    | some (i, id) ↦
        let source = copy_lv_from_buffer packet i in
        let i = u32 (i + (source.length + 1)) in
        let destination = copy_lv_from_buffer packet i in
        some (
          u32 (i + (destination.length + 1)),
          record {
            destination_id = id;
            source_file_name = source;
            destination_file_name = destination;
          },
        )
  ]

  unfoldable pub get_cont_part : Buffer → ℕ → Option (ℕ × MessageContPartRequest)
  get_cont_part packet i = elim (get_id packet i) [
    | none ↦ none
    | some (i, destination_id) ↦ elim (get_id packet i) [
      | none ↦ none
      | some (i, originator_id) ↦ elim (get_id packet i) [
        | none ↦ none
        | some (i, transaction_id) ↦ some (
          i,
          record {
            destination_id = destination_id;
            originator_id = originator_id;
            transaction_id = transaction_id;
          },
        )
      ]
    ]
  ]

  abbrev pub failed_index : ℕ
  failed_index = 0xffff_ffff

  abbrev with_put_proxy : Option (ℕ × MessagePutProxy) → ℕ × Option Message
  with_put_proxy none = (failed_index, none)
  with_put_proxy (some (i, m)) = (i, some (put_proxy m))

  abbrev with_cont_part : Option (ℕ × MessageContPartRequest) → ℕ × Option Message
  with_cont_part none = (failed_index, none)
  with_cont_part (some (i, m)) = (i, some (cont_part m))

  -- For another type than these two, a pointer that was never set is pushed: `none`.
  unfoldable pub get_message_from_packet : Buffer → ℕ → Option (ℕ × Option Message)
  get_message_from_packet packet start =
      let type = packet.byte (start + 5) in
      let message_start = u32 (start + 6) in
      let proxy = with_put_proxy (get_put_proxy packet message_start) in
      let partial = with_cont_part (get_cont_part packet message_start) in
      if is_text cfdp (at packet start)
      then if type == proxy_put_request
        then some proxy
        else if type == continue_partial
        then some partial
        else none
      else some (0, none)

  abbrev pub with_message : List Message → Option Message → List Message
  with_message ms none = ms
  with_message ms (some m) = ms ++ (m ∷ [])

  -- The index that the loop stops at, and the messages of the request; `none` also when the fuel runs
  -- out.
  unfoldable pub get_messages_from_packet :
      ℕ → Buffer → ℕ → ℕ → List Message → Option (ℕ × List Message)
  get_messages_from_packet zero packet packet_index data_length ms = none
  get_messages_from_packet (suc fuel) packet packet_index data_length ms =
      let is_message = is_text (0x63 ∷ 0x66 ∷ 0x64 ∷ 0x70 ∷ []) (at packet packet_index) in
      let rest : Option (ℕ × List Message) = elim (get_message_from_packet packet packet_index) [
        | none ↦ none
        | some (i, m) ↦ get_messages_from_packet fuel packet i data_length (with_message ms m)
      ] in
      if ltb packet_index (u32 (data_length + 0x1_0000_0000 - 4)) && is_message
      then rest
      else some (packet_index, ms)
