-- ===== src/Message/Total.antt =====
-- `get_messages_from_packet` (packet.c): when the loop over the messages of a packet ends.
use ccsds_file_delivery_prot.Common.{
  ℕ, zero, suc, ◌+◌, ◌-◌, ◌==◌, ltb, ◌≡◌, ◌≤◌, ◌<◌, ◌^◌, refl, ap, ◌∙◌, subst, arith, inl, inr, ◌⊎◌,
  not, ◌&&◌, ◌||◌, true, false, Option, none, some, u32, List, [], ◌∷◌, Bool-cases, Option-cases,
  Returns, if-cases,
}
use ccsds_file_delivery_prot.Wire.{Buffer, Endian, at}
use ccsds_file_delivery_prot.Packet.Ids.{copy_id_lv_from_packet}
use ccsds_file_delivery_prot.Message.{
  create_lv, Message, MessagePutProxy, MessageContPartRequest, cfdp, is_text, get_id, get_put_proxy,
  get_cont_part, copy_lv_from_buffer, failed_index, with_put_proxy, with_cont_part,
  get_message_from_packet, get_messages_from_packet, with_message, proxy_put_request,
  continue_partial,
}
use ccsds_file_delivery_prot.Incoming.Handler.{Ensures}

-- A packet does not begin with the text of a message, and every message in it has a type that the
-- receiver knows.
pub record HasKnownMessages (packet : Buffer) : Type 0 where
  pub first : (packet.byte 0 == 0x63) ≡ false
  pub known :
      (k : ℕ)
      → (not (is_text cfdp (at packet k))
          || ((packet.byte (k + 5) == proxy_put_request)
              || (packet.byte (k + 5) == continue_partial)))
        ≡ true

module _ (host : Endian) (packet : Buffer) where
  get_id-lt :
      (i : ℕ)
      → i + 300 < 2 ^ 32
      → Ensures (λ (j, id). (i < j) × (j < i + 260)) (get_id host packet i)
  unfolding get_id copy_id_lv_from_packet
  get_id-lt i room = ground arith

  lv_length : (i : ℕ) → (copy_lv_from_buffer packet i).length < 256
  unfolding copy_lv_from_buffer create_lv
  lv_length i = omega arith

  put_proxy-lt :
      (i : ℕ) → i + 1_000 < 2 ^ 32 → Ensures (λ (j, m). i < j) (get_put_proxy host packet i)
  unfolding get_put_proxy
  put_proxy-lt i room = elim (Option-cases (get_id host packet i)) [
    | inl e ↦ rw (get_put_proxy, e) tt
    | inr ((j, id), e) ↦
        let (low, high) : (i < j) × (j < i + 260) =
          subst (Ensures (λ (j, id). (i < j) × (j < i + 260))) e
            (get_id-lt i (omega (arith, room))) in
        let source = copy_lv_from_buffer packet j in
        let j2 = u32 (j + (source.length + 1)) in
        rw (get_put_proxy, e) (omega (arith, low, high, room, lv_length j, lv_length j2))
  ]

  cont_part-lt :
      (i : ℕ) → i + 1_000 < 2 ^ 32 → Ensures (λ (j, m). i < j) (get_cont_part host packet i)
  unfolding get_cont_part
  cont_part-lt i room =
      let P : Option (ℕ × ℕ) → Type 0 = Ensures (λ (j, id). (i < j) × (j < i + 260)) in
      elim (Option-cases (get_id host packet i)) [
        | inl e ↦ rw (get_cont_part, e) tt
        | inr ((j, id), e) ↦
            let (low, high) : (i < j) × (j < i + 260) =
              subst P e (get_id-lt i (omega (arith, room))) in
            elim (Option-cases (get_id host packet j)) [
              | inl e2 ↦ rw (get_cont_part, e, e2) tt
              | inr ((j2, id2), e2) ↦
                  let (low2, high2) : (j < j2) × (j2 < j + 260) =
                    subst (Ensures (λ (k, id). (j < k) × (k < j + 260))) e2
                      (get_id-lt j (omega (arith, room, high))) in
                  elim (Option-cases (get_id host packet j2)) [
                    | inl e3 ↦ rw (get_cont_part, e, e2, e3) tt
                    | inr ((j3, id3), e3) ↦
                        let (low3, high3) : (j2 < j3) × (j3 < j2 + 260) =
                          subst (Ensures (λ (k, id). (j2 < k) × (k < j2 + 260))) e3
                            (get_id-lt j2 (omega (arith, room, high, high2))) in
                        rw (get_cont_part, e, e2, e3) (omega (arith, low, low2, low3))
                  ]
            ]
      ]

  -- Where the next message is looked for.
  abbrev IsNext : ℕ → ℕ × Option Message → Type 0
  IsNext i (j, m) = (i < j) ⊎ ((j ≡ failed_index host) ⊎ (j ≡ 0))

  with_put_proxy-IsNext :
      (i : ℕ) (o : Option (ℕ × MessagePutProxy))
      → Ensures (λ (j, m). i + 6 < j) o
      → IsNext i (with_put_proxy host o)
  with_put_proxy-IsNext i none lt = inr (inl refl)
  with_put_proxy-IsNext i (some (j, m)) lt = inl (omega (arith, lt))

  with_cont_part-IsNext :
      (i : ℕ) (o : Option (ℕ × MessageContPartRequest))
      → Ensures (λ (j, m). i + 6 < j) o
      → IsNext i (with_cont_part host o)
  with_cont_part-IsNext i none lt = inr (inl refl)
  with_cont_part-IsNext i (some (j, m)) lt = inl (omega (arith, lt))

  get_message-IsNext :
      (i : ℕ)
      → HasKnownMessages packet
      → i + 2_000 < 2 ^ 32
      → Returns (IsNext i) (get_message_from_packet host packet i)
  unfolding get_message_from_packet
  get_message-IsNext i h room =
      let type = packet.byte (i + 5) in
      let known = h.known i in
      let start : u32 (i + 6) ≡ i + 6 = omega (arith, room) in
      let proxy = put_proxy-lt (i + 6) (omega (arith, room)) in
      let partial = cont_part-lt (i + 6) (omega (arith, room)) in
      rw start (
        if-cases (Returns (IsNext i)) (is_text cfdp (at packet i))
          (λ h1.
            if-cases (Returns (IsNext i)) (type == proxy_put_request)
              (λ h2. with_put_proxy-IsNext i (get_put_proxy host packet (i + 6)) proxy)
              (λ h2.
                if-cases (Returns (IsNext i)) (type == continue_partial)
                  (λ h3. with_cont_part-IsNext i (get_cont_part host packet (i + 6)) partial)
                  (λ h3. absurd (ground (arith, known, h1, h2, h3)))))
          (λ h1. inr (inr refl)))

  module _ (data_length : ℕ) (long : 4 ≤ data_length) (short : data_length < 2 ^ 16)
      (h : HasKnownMessages packet) where
    abbrev Yields : ℕ → ℕ → List Message → Type 0
    Yields fuel i ms =
        (x : ℕ × List Message) × (get_messages_from_packet host fuel packet i data_length ms
          ≡ some x)

    -- Outside of the data, and at the packet's first byte, there is no message.
    loop_stops :
        (fuel i : ℕ) (ms : List Message)
        → 1 ≤ fuel
        → (failed_index host ≤ i) ⊎ (i ≡ 0)
        → Yields fuel i ms
    unfolding get_messages_from_packet
    loop_stops zero i ms some_fuel out = absurd (omega (arith, some_fuel))
    loop_stops (suc fuel) i ms some_fuel (inl out) =
        let stop : ltb i (u32 (data_length + 0x1_0000_0000 - 4)) ≡ false =
          ground (arith, long, short, out) in
        ((i, ms), rw stop refl)
    loop_stops (suc fuel) i ms some_fuel (inr begin) =
        let no_text : (packet.byte i == 0x63) ≡ false =
          ap (λ (k : ℕ). packet.byte k == 0x63) begin ∙ h.first in
        ((i, ms), ground (arith, no_text))

    pub get_messages_returns :
        (fuel i : ℕ) (ms : List Message) → 1 ≤ fuel → data_length ≤ i + fuel + 2 → Yields fuel i ms
    unfolding get_messages_from_packet
    get_messages_returns zero i ms some_fuel enough = absurd (omega (arith, some_fuel))
    get_messages_returns (suc fuel) i ms some_fuel enough =
        let is_message = is_text (0x63 ∷ 0x66 ∷ 0x64 ∷ 0x70 ∷ []) (at packet i) in
        elim (Bool-cases (ltb i (u32 (data_length + 0x1_0000_0000 - 4)) && is_message)) [
          | inr stop ↦ ((i, ms), rw stop refl)
          | inl goes ↦
              let inside : i + 4 < data_length = ground (arith, goes, long, short) in
              let read = get_message-IsNext i h (omega (arith, inside, short)) in
              elim (Option-cases (get_message_from_packet host packet i)) [
                | inl e ↦ absurd (subst (Returns (IsNext i)) e read)
                | inr ((j, m), e) ↦
                    let next : IsNext i (j, m) = subst (Returns (IsNext i)) e read in
                    let rest : Yields fuel j (with_message host ms m) = elim next [
                      | inl further ↦
                          get_messages_returns fuel j (with_message host ms m)
                            (omega (arith, inside, enough)) (omega (arith, further, enough))
                      | inr (inl failed) ↦
                          loop_stops fuel j (with_message host ms m) (omega (arith, inside, enough))
                            (inl (omega (arith, failed)))
                      | inr (inr begin) ↦
                          loop_stops fuel j (with_message host ms m) (omega (arith, inside, enough))
                            (inr begin)
                    ] in
                    (rest.0, rw (goes, e) rest.1)
              ]
        ]
