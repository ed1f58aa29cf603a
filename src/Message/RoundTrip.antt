-- ===== src/Message/RoundTrip.antt =====
-- `add_messages_to_packet` of the sender, then `get_messages_from_packet` of the receiver.
use mathlib.Core.List.{append_assoc, append-nil}
use ccsds_file_delivery_prot.Common.{
  ℕ, zero, suc, ◌+◌, ◌-◌, ◌<◌, ◌≤◌, ◌^◌, ◌≡◌, refl, ap, sym, ◌∙◌, arith, ◌==◌, ltb, true, false,
  some, List, [], ◌∷◌, ◌++◌, length, length-append, subst, Bool-cases, ltb→lt, All, u32, inl, inr,
}
use ccsds_file_delivery_prot.Wire.{Buffer, Bytes, Endian, put, memcpy, at}
use ccsds_file_delivery_prot.Wire.Order.{memcpy_inside, memcpy_outside}
use ccsds_file_delivery_prot.Wire.Access.{Outside, put_here, put-Outside}
use ccsds_file_delivery_prot.Message.{
  Message, put_proxy, cont_part, other_message, message_type, bytes_of, cfdp, is_text, add_value,
  add_messages_callback, add_messages_to_packet, get_message_from_packet, get_messages_from_packet,
}
use ccsds_file_delivery_prot.Message.Pieces.{
  bytes_of_front, HoldsList, HoldsList-front, HoldsList-back, Writes, Writes-append,
}
use ccsds_file_delivery_prot.Message.Bodies.{
  IsMessage, value_wire, wire, put_proxy_Writes, cont_part_Writes, get_put_proxy_of,
  get_cont_part_of,
}

is_text_of :
    (xs : List ℕ) (b : Bytes)
    → ((k : ℕ) → k < length xs → b k ≡ bytes_of xs k)
    → is_text xs b ≡ true
is_text_of [] b same = refl
is_text_of (x ∷ xs) b same =
    let first : (b 0 == x) ≡ true = ground (arith, same 0 (omega arith)) in
    rw first (is_text_of xs (λ k. b (suc k)) λ k lt. same (suc k) (omega arith))

goes_on : (i n : ℕ) → n < 2 ^ 32 → i + 4 < n → ltb i (u32 (n + 0x1_0000_0000 - 4)) ≡ true
goes_on i n small before = ground arith

-- The identifier and the type of a message.
head_of : Buffer → ℕ → ℕ → Buffer
head_of m i type = put (memcpy m i (bytes_of cfdp) 5) (i + 5) type

head_Writes :
    (m : Buffer) (i type : ℕ) → type < 256 → Writes (cfdp ++ (type ∷ [])) i m (head_of m i type)
unfolding head_of
head_Writes m i type small = record { here = here; elsewhere = elsewhere }
  where
    here : HoldsList (cfdp ++ (type ∷ [])) (head_of m i type) i
    here k lt = elim (Bool-cases (ltb k 5)) [
      | inl e ↦
          let inside = ltb→lt k 5 e in
          put-Outside (memcpy m i (bytes_of cfdp) 5) (i + 5) type (i + k) (inl (omega arith))
          ∙ memcpy_inside m i (bytes_of cfdp) 5 k inside
          ∙ sym (bytes_of_front cfdp (type ∷ []) k inside)
      | inr e ↦
          let last : k ≡ 5 = ground arith in
          subst (λ (k : ℕ). (head_of m i type).byte (i + k) ≡ bytes_of (cfdp ++ (type ∷ [])) k)
            (sym last) (put_here (memcpy m i (bytes_of cfdp) 5) (i + 5) type ∙ omega (arith, small))
    ]

    elsewhere : (j : ℕ) → Outside i 6 j → (head_of m i type).byte j ≡ m.byte j
    elsewhere j out =
        put-Outside (memcpy m i (bytes_of cfdp) 5) (i + 5) type j (ground (arith, out))
        ∙ memcpy_outside m i (bytes_of cfdp) 5 j (ground (arith, out))

message_type-lt : (m : Message) → IsMessage m → message_type m < 256
message_type-lt (put_proxy p) is = omega arith
message_type-lt (cont_part p) is = omega arith
message_type-lt (other_message type) is = absurd is

-- Messages one behind the other.
abbrev pub wires : List Message → List ℕ
wires [] = []
wires (m ∷ ms) = wire m ++ wires ms

module _ (host : Endian) where
  value_Writes :
      (msg : Message) (m : Buffer) (i : ℕ)
      → IsMessage msg
      → i + length (value_wire msg) + 300 < 2 ^ 32
      → (m' : Buffer) × (add_value host msg (m, i) ≡ (some (i + length (value_wire msg)), m'))
        × Writes (value_wire msg) i m m'
  value_Writes (put_proxy p) m i is room = put_proxy_Writes host p m i is room
  value_Writes (cont_part p) m i is room = cont_part_Writes host p m i is room
  value_Writes (other_message type) m i is room = absurd is

  callback_Writes :
      (msg : Message) (m : Buffer) (i : ℕ)
      → IsMessage msg
      → i + length (wire msg) + 300 < 2 ^ 32
      → (m' : Buffer) × (add_messages_callback host msg (m, i) ≡ (m', i + length (wire msg)))
        × Writes (wire msg) i m m'
  unfolding add_messages_callback head_of
  callback_Writes msg m i is room =
      let type = message_type msg in
      let room' : i + 6 + length (value_wire msg) + 300 < 2 ^ 32 = omega arith in
      let (m', added, w) = value_Writes msg (head_of m i type) (i + 6) is room' in
      let e : u32 (i + 6) ≡ i + 6 = omega arith in
      let end : i + 6 + length (value_wire msg) ≡ i + length (wire msg) = omega arith in
      (
        m',
        rw (add_messages_callback, e, added, end) refl,
        Writes-append (cfdp ++ (type ∷ [])) (value_wire msg) i m (head_of m i type) m'
            (head_Writes m i type (message_type-lt msg is)) w,
      )

  wire_text :
      (type : ℕ) (xs : List ℕ) (m : Buffer) (i : ℕ)
      → HoldsList (cfdp ++ (type ∷ xs)) m i
      → is_text cfdp (at m i) ≡ true
  wire_text type xs m i holds =
      is_text_of cfdp (at m i) λ k lt. HoldsList-front cfdp (type ∷ xs) m i holds k lt

  get_message_of :
      (msg : Message) (m : Buffer) (i : ℕ)
      → IsMessage msg
      → i + length (wire msg) + 300 < 2 ^ 32
      → HoldsList (wire msg) m i
      → get_message_from_packet host m i ≡ some (i + length (wire msg), some msg)
  unfolding get_message_from_packet
  get_message_of (put_proxy p) m i is room holds =
      let vs = value_wire (put_proxy p) in
      let got =
        get_put_proxy_of host p m (i + 6) is (omega arith)
          (HoldsList-back (cfdp ++ (0 ∷ [])) vs m i holds) in
      let type : (m.byte (i + 5) == 0) ≡ true = ground (arith, holds 5 (omega arith)) in
      let e : u32 (i + 6) ≡ i + 6 = omega arith in
      let end : i + 6 + length vs ≡ i + length (wire (put_proxy p)) = omega arith in
      rw (wire_text 0 vs m i holds, type, e, got, end) refl
  get_message_of (cont_part p) m i is room holds =
      let vs = value_wire (cont_part p) in
      let got =
        get_cont_part_of host p m (i + 6) is (omega arith)
          (HoldsList-back (cfdp ++ (10 ∷ [])) vs m i holds) in
      let not_put : (m.byte (i + 5) == 0) ≡ false = ground (arith, holds 5 (omega arith)) in
      let type : (m.byte (i + 5) == 10) ≡ true = ground (arith, holds 5 (omega arith)) in
      let e : u32 (i + 6) ≡ i + 6 = omega arith in
      let end : i + 6 + length vs ≡ i + length (wire (cont_part p)) = omega arith in
      rw (wire_text 10 vs m i holds, not_put, type, e, got, end) refl
  get_message_of (other_message type) m i is room holds = absurd is

  add_messages_Writes :
      (ms : List Message) (m : Buffer) (i : ℕ)
      → All IsMessage ms
      → i + length (wires ms) + 300 < 2 ^ 32
      → (m' : Buffer) × (add_messages_to_packet host ms (m, i) ≡ (m', i + length (wires ms)))
        × Writes (wires ms) i m m'
  unfolding add_messages_to_packet
  add_messages_Writes [] m i is room =
      let e : i ≡ i + 0 = omega arith in
      (
        m,
        ap (λ (i : ℕ). (m, i)) e,
        record { here = λ k lt. absurd (omega (arith, lt)); elsewhere = λ j out. refl },
      )
  add_messages_Writes (msg ∷ ms) m i (is, rest) room =
      let size = length-append (wire msg) (wires ms) in
      let (m1, e1, w1) = callback_Writes msg m i is (omega (arith, size)) in
      let (m2, e2, w2) =
        add_messages_Writes ms m1 (i + length (wire msg)) rest (omega (arith, size)) in
      let end : i + length (wire msg) + length (wires ms) ≡ i + length (wires (msg ∷ ms)) =
        omega (arith, size) in
      (m2, rw (e1, e2, end) refl, Writes-append (wire msg) (wires ms) i m m1 m2 w1 w2)

  get_messages_of :
      (ms old : List Message) (fuel : ℕ) (m : Buffer) (i data_length : ℕ)
      → All IsMessage ms
      → i + length (wires ms) + 300 < 2 ^ 32
      → HoldsList (wires ms) m i
      → length ms < fuel
      → i + length (wires ms) ≤ data_length
      → data_length ≤ i + length (wires ms) + 4
      → 4 ≤ data_length
      → get_messages_from_packet host fuel m i data_length old
        ≡ some (i + length (wires ms), old ++ ms)
  unfolding get_messages_from_packet
  get_messages_of ms old zero m i n is room holds enough a b c = absurd (omega (arith, enough))
  get_messages_of [] old (suc fuel) m i n is room holds enough a b c =
      let stop : ltb i (u32 (n + 0x1_0000_0000 - 4)) ≡ false = ground arith in
      let e : i ≡ i + 0 = omega arith in
      rw stop (
        ap (λ (i : ℕ). some (i, old)) e
        ∙ ap (λ (ms : List Message). some (i + 0, ms)) (sym (append-nil old)))
  get_messages_of (msg ∷ ms) old (suc fuel) m i n (is, rest) room holds enough a b c =
      let size = length-append (wire msg) (wires ms) in
      let holds_one = HoldsList-front (wire msg) (wires ms) m i holds in
      let go : ltb i (u32 (n + 0x1_0000_0000 - 4)) ≡ true =
        goes_on i n (omega arith) (omega (arith, size, a)) in
      let begins : is_text (0x63 ∷ 0x66 ∷ 0x64 ∷ 0x70 ∷ []) (at m i) ≡ true =
        is_text_of (0x63 ∷ 0x66 ∷ 0x64 ∷ 0x70 ∷ []) (at m i) λ k lt.
          holds_one k (omega (arith, lt))
          ∙ bytes_of_front (0x63 ∷ 0x66 ∷ 0x64 ∷ 0x70 ∷ []) (0 ∷ message_type msg ∷ value_wire msg)
              k lt in
      let got = get_message_of msg m i is (omega (arith, size)) holds_one in
      let onward =
        get_messages_of ms (old ++ (msg ∷ [])) fuel m (i + length (wire msg)) n rest
          (omega (arith, size)) (HoldsList-back (wire msg) (wires ms) m i holds)
          (omega (arith, enough)) (omega (arith, size, a)) (omega (arith, size, b)) c in
      let end : i + length (wire msg) + length (wires ms) ≡ i + length (wires (msg ∷ ms)) =
        omega (arith, size) in
      rw (go, begins, got, onward, end)
        (ap (λ (xs : List Message). some (i + length (wires (msg ∷ ms)), xs))
          (append_assoc old (msg ∷ []) ms))

-- Messages that are added to a packet, with ids below 2 ^ 32 - 1 and names as long as they state, are
-- read back from it in their order, behind the messages that the request had before, when the length
-- that the receiver goes by is the index where they end, or up to four more: the code compares an
-- index of the packet with it. Every index is below 2 ^ 32 - 300, and the loop gets enough fuel.
pub get-add_messages :
    (host : Endian) (ms old : List Message) (m : Buffer) (i data_length fuel : ℕ)
    → All IsMessage ms
    → i + length (wires ms) + 300 < 2 ^ 32
    → length ms < fuel
    → i + length (wires ms) ≤ data_length
    → data_length ≤ i + length (wires ms) + 4
    → 4 ≤ data_length
    → (let (m', end) = add_messages_to_packet host ms (m, i) in
        (end ≡ i + length (wires ms))
        × (get_messages_from_packet host fuel m' i data_length old ≡ some (end, old ++ ms)))
get-add_messages host ms old m i data_length fuel is room enough low high four =
    let (m', added, w) = add_messages_Writes host ms m i is room in
    rw added
      (refl, get_messages_of host ms old fuel m' i data_length is room w.here enough low high four)
