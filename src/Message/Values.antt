-- ===== src/Message/Values.antt =====
-- The bytes that stand for the parts of a message, which packet.c writes with its ids and requests.c
-- with its names, and reads again.
use ccsds_file_delivery_prot.Common.{
  ℕ, zero, suc, ◌+◌, ◌<◌, ◌≤◌, ◌^◌, ◌≡◌, refl, ap, sym, ◌∙◌, arith, ◌==◌, false, Option, some, List,
  ◌∷◌, length, u8, u16, u32, inl, inr,
}
use ccsds_file_delivery_prot.Wire.{Buffer, Bytes, Endian, put, memcpy, at}
use ccsds_file_delivery_prot.Wire.Order.{memcpy_inside, memcpy_outside}
use ccsds_file_delivery_prot.Wire.Access.{Outside, put_here, put-Outside}
use ccsds_file_delivery_prot.Packet.Ids.{copy_id_lv_from_packet, copy_id_from_packet, error_id}
use ccsds_file_delivery_prot.Packet.Ids.RoundTrip.{
  id_length, id_bytes, copy_id_to_packet_inside, copy_id_to_packet-Outside, copy_id_from_packet_of,
}
use ccsds_file_delivery_prot.Packet.Ids.LengthValue.{
  copy_id_lv_to_packet_steps, with_length, with_id,
}
use ccsds_file_delivery_prot.Message.{
  Lv, bytes_of, read_bytes, create_lv, copy_lv_from_buffer, copy_lv_to_buffer, add_id, add_lv,
  get_id,
}
use ccsds_file_delivery_prot.Message.Pieces.{HoldsList, Writes, read_bytes_of}

abbrev pub id_wire : ℕ → List ℕ
id_wire id = id_length id ∷ read_bytes (id_length id) (id_bytes id)

abbrev pub lv_wire : Lv → List ℕ
lv_wire lv = lv.length ∷ lv.value

-- The length of the memory is the one that is stated.
abbrev pub IsLv : Lv → Type 0
IsLv lv = (lv.length ≡ length lv.value) × (lv.length < 256)

length-read_bytes : (n : ℕ) (b : Bytes) → length (read_bytes n b) ≡ n
length-read_bytes zero b = refl
length-read_bytes (suc n) b = omega (arith, length-read_bytes n (λ k. b (suc k)))

bytes_of-read_bytes : (n : ℕ) (b : Bytes) (k : ℕ) → k < n → bytes_of (read_bytes n b) k ≡ b k
bytes_of-read_bytes zero b k lt = absurd (omega (arith, lt))
bytes_of-read_bytes (suc n) b zero lt = refl
bytes_of-read_bytes (suc n) b (suc k) lt =
    bytes_of-read_bytes n (λ k. b (suc k)) k (omega (arith, lt))

id_length-le : (id : ℕ) → id_length id ≤ 8
id_length-le id = ground arith

pub length-id_wire : (id : ℕ) → length (id_wire id) ≡ id_length id + 1
length-id_wire id = omega (arith, length-read_bytes (id_length id) (id_bytes id))

module _ (host : Endian) where
  id_Writes :
      (id : ℕ) (m : Buffer) (i : ℕ) (fits : id < 0xffff_ffff)
      → Writes (id_wire id) i m (with_length host m i id fits)
  id_Writes id m i fits = record { here = here; elsewhere = elsewhere }
    where
      here : HoldsList (id_wire id) (with_length host m i id fits) i
      here zero lt =
          ap (with_length host m i id fits).byte (omega arith)
          ∙ put_here (with_id host m i id fits) i (id_length id)
          ∙ omega (arith, id_length-le id)
      here (suc k) lt =
          let small : k < id_length id = omega (arith, lt, length-id_wire id) in
          put-Outside (with_id host m i id fits) i (id_length id) (i + suc k) (inr (omega arith))
          ∙ ap (with_id host m i id fits).byte (omega arith)
          ∙ copy_id_to_packet_inside host m (i + 1) id k fits small
          ∙ sym (bytes_of-read_bytes (id_length id) (id_bytes id) k small)

      elsewhere :
          (j : ℕ)
          → Outside i (length (id_wire id)) j
          → (with_length host m i id fits).byte j ≡ m.byte j
      elsewhere j out =
          put-Outside (with_id host m i id fits) i (id_length id) j (ground (arith, out))
          ∙ copy_id_to_packet-Outside host m (i + 1) id j (ground (arith, out, length-id_wire id))

  pub add_id-Writes :
      (id : ℕ) (m : Buffer) (i : ℕ)
      → id < 0xffff_ffff
      → i + 9 < 2 ^ 32
      → (m' : Buffer) × (add_id host id (m, i) ≡ (some (i + length (id_wire id)), m'))
        × Writes (id_wire id) i m m'
  unfolding add_id
  add_id-Writes id m i fits room =
      let e : u32 (i + (id_length id + 1)) ≡ i + length (id_wire id) =
        omega (arith, id_length-le id, length-id_wire id) in
      let steps = copy_id_lv_to_packet_steps host m i id fits in
      (
        with_length host m i id fits,
        rw (add_id, steps, e)
            (ap (λ (r : Option ℕ × Buffer). (some (i + length (id_wire id)), r.1)) steps),
        id_Writes id m i fits,
      )

  pub get_id_of :
      (id : ℕ) (m : Buffer) (i : ℕ)
      → id < 0xffff_ffff
      → i + 9 < 2 ^ 32
      → HoldsList (id_wire id) m i
      → get_id host m i ≡ some (i + length (id_wire id), id)
  unfolding get_id copy_id_lv_from_packet
  get_id_of id m i fits room holds =
      let first : u8 (m.byte i) ≡ id_length id =
        ap (λ (j : ℕ). u8 (m.byte j)) (omega arith)
        ∙ ap u8 (holds 0 (omega arith))
        ∙ omega (arith, id_length-le id) in
      let read : copy_id_from_packet host m (i + 1) (id_length id) ≡ id =
        copy_id_from_packet_of host m (i + 1) id fits λ k lt.
          ap m.byte (omega arith)
          ∙ holds (suc k) (omega (arith, lt, length-id_wire id))
          ∙ bytes_of-read_bytes (id_length id) (id_bytes id) k lt in
      let known : (id == error_id) ≡ false = ground arith in
      let e : u32 (i + (id_length id + 1)) ≡ i + length (id_wire id) =
        omega (arith, id_length-le id, length-id_wire id) in
      let got : copy_id_lv_from_packet host m i ≡ some (id_length id, id) =
        rw (copy_id_lv_from_packet, first, read, known) refl in
      rw (get_id, got, e) refl

  lv_Writes :
      (lv : Lv) (m : Buffer) (i : ℕ)
      → IsLv lv
      → Writes (lv_wire lv) i m (memcpy (put m i lv.length) (i + 1) (bytes_of lv.value) lv.length)
  lv_Writes lv m i (len, small) = record { here = here; elsewhere = elsewhere }
    where
      here :
          HoldsList
            (lv_wire lv)
            (memcpy (put m i lv.length) (i + 1) (bytes_of lv.value) lv.length)
            i
      here zero lt =
          memcpy_outside (put m i lv.length) (i + 1) (bytes_of lv.value) lv.length (i + 0)
            (inl (omega arith))
          ∙ ap (put m i lv.length).byte (omega arith)
          ∙ put_here m i lv.length
          ∙ omega (arith, small)
      here (suc k) lt =
          ap (memcpy (put m i lv.length) (i + 1) (bytes_of lv.value) lv.length).byte (omega arith)
          ∙ memcpy_inside (put m i lv.length) (i + 1) (bytes_of lv.value) lv.length k
              (omega (arith, lt, len))

      elsewhere :
          (j : ℕ)
          → Outside i (length (lv_wire lv)) j
          → (memcpy (put m i lv.length) (i + 1) (bytes_of lv.value) lv.length).byte j ≡ m.byte j
      elsewhere j out =
          memcpy_outside (put m i lv.length) (i + 1) (bytes_of lv.value) lv.length j
            (ground (arith, out, len))
          ∙ put-Outside m i lv.length j (ground (arith, out))

  pub add_lv-Writes :
      (lv : Lv) (m : Buffer) (i : ℕ)
      → IsLv lv
      → i + 257 < 2 ^ 32
      → (m' : Buffer) × (add_lv host lv (m, i) ≡ (m', i + length (lv_wire lv)))
        × Writes (lv_wire lv) i m m'
  unfolding add_lv copy_lv_to_buffer
  add_lv-Writes lv m i (len, small) room =
      let e : u32 (i + u16 (1 + lv.length)) ≡ i + length (lv_wire lv) = omega arith in
      (
        memcpy (put m i lv.length) (i + 1) (bytes_of lv.value) lv.length,
        rw e refl,
        lv_Writes lv m i (len, small),
      )

  pub copy_lv_of :
      (lv : Lv) (m : Buffer) (i : ℕ)
      → IsLv lv
      → HoldsList (lv_wire lv) m i
      → copy_lv_from_buffer m i ≡ lv
  unfolding copy_lv_from_buffer create_lv
  copy_lv_of lv m i (len, small) holds =
      let first : u8 (m.byte i) ≡ lv.length =
        ap (λ (j : ℕ). u8 (m.byte j)) (omega arith)
        ∙ ap u8 (holds 0 (omega arith))
        ∙ omega (arith, small) in
      let again : u8 lv.length ≡ lv.length = omega (arith, small) in
      let rest : read_bytes (length lv.value) (at m (i + 1)) ≡ lv.value =
        read_bytes_of lv.value (at m (i + 1))
          λ k lt. ap m.byte (omega arith) ∙ holds (suc k) (omega arith) in
      let whole : read_bytes lv.length (at m (i + 1)) ≡ lv.value =
        ap (λ (n : ℕ). read_bytes n (at m (i + 1))) len ∙ rest in
      rw (first, again, whole) refl
