-- ===== src/Message/Bodies.antt =====
-- The bytes that stand for a whole message, and its value among them.
use ccsds_file_delivery_prot.Common.{
  ℕ, ◌+◌, ◌<◌, ◌^◌, ◌≡◌, refl, arith, some, List, [], ◌∷◌, ◌++◌, length, length-append, u32,
}
use ccsds_file_delivery_prot.Wire.{Buffer, Endian}
use ccsds_file_delivery_prot.Message.{
  MessagePutProxy, MessageContPartRequest, Message, put_proxy, cont_part, other_message,
  message_type, cfdp, add_value, get_put_proxy, get_cont_part,
}
use ccsds_file_delivery_prot.Message.Pieces.{
  HoldsList, HoldsList-front, HoldsList-back, Writes, Writes-append,
}
use ccsds_file_delivery_prot.Message.Values.{
  id_wire, lv_wire, IsLv, add_id-Writes, get_id_of, add_lv-Writes, copy_lv_of,
}

-- Ids that can be written, and names that are as long as they state.
abbrev pub IsMessage : Message → Type 0
IsMessage (put_proxy m) =
    (m.destination_id < 0xffff_ffff) × IsLv m.source_file_name × IsLv m.destination_file_name
IsMessage (cont_part m) =
    (m.destination_id < 0xffff_ffff)
    × (m.originator_id < 0xffff_ffff)
    × (m.transaction_id < 0xffff_ffff)
IsMessage (other_message type) = ⊥

abbrev pub value_wire : Message → List ℕ
value_wire (put_proxy m) =
    id_wire m.destination_id ++ (lv_wire m.source_file_name ++ lv_wire m.destination_file_name)
value_wire (cont_part m) =
    id_wire m.destination_id ++ (id_wire m.originator_id ++ id_wire m.transaction_id)
value_wire (other_message type) = []

abbrev pub wire : Message → List ℕ
wire m = cfdp ++ (message_type m ∷ value_wire m)

module _ (host : Endian) where
  pub put_proxy_Writes :
      (p : MessagePutProxy) (m : Buffer) (i : ℕ)
      → IsMessage (put_proxy p)
      → i + length (value_wire (put_proxy p)) + 300 < 2 ^ 32
      → (m' : Buffer) × (add_value host (put_proxy p) (m, i)
          ≡ (some (i + length (value_wire (put_proxy p))), m'))
        × Writes (value_wire (put_proxy p)) i m m'
  unfolding add_value
  put_proxy_Writes p m i (fits, source, destination) room =
      let xs = id_wire p.destination_id in
      let ys = lv_wire p.source_file_name in
      let zs = lv_wire p.destination_file_name in
      let sizes = length-append xs (ys ++ zs) in
      let sizes' = length-append ys zs in
      let (m1, e1, w1) = add_id-Writes host p.destination_id m i fits (omega arith) in
      let (m2, e2, w2) =
        add_lv-Writes host p.source_file_name m1 (i + length xs) source
          (omega (arith, sizes, sizes')) in
      let (m3, e3, w3) =
        add_lv-Writes host p.destination_file_name m2 (i + length xs + length ys) destination
          (omega (arith, sizes, sizes')) in
      let end : i + length xs + length ys + length zs ≡ i + length (xs ++ (ys ++ zs)) =
        omega (arith, sizes, sizes') in
      (
        m3,
        rw (add_value, e1, e2, e3, end) refl,
        Writes-append xs (ys ++ zs) i m m1 m3 w1
            (Writes-append ys zs (i + length xs) m1 m2 m3 w2 w3),
      )

  pub cont_part_Writes :
      (p : MessageContPartRequest) (m : Buffer) (i : ℕ)
      → IsMessage (cont_part p)
      → i + length (value_wire (cont_part p)) + 300 < 2 ^ 32
      → (m' : Buffer) × (add_value host (cont_part p) (m, i)
          ≡ (some (i + length (value_wire (cont_part p))), m'))
        × Writes (value_wire (cont_part p)) i m m'
  unfolding add_value
  cont_part_Writes p m i (f1, f2, f3) room =
      let xs = id_wire p.destination_id in
      let ys = id_wire p.originator_id in
      let zs = id_wire p.transaction_id in
      let sizes = length-append xs (ys ++ zs) in
      let sizes' = length-append ys zs in
      let (m1, e1, w1) = add_id-Writes host p.destination_id m i f1 (omega arith) in
      let (m2, e2, w2) =
        add_id-Writes host p.originator_id m1 (i + length xs) f2 (omega (arith, sizes, sizes')) in
      let (m3, e3, w3) =
        add_id-Writes host p.transaction_id m2 (i + length xs + length ys) f3
          (omega (arith, sizes, sizes')) in
      let end : i + length xs + length ys + length zs ≡ i + length (xs ++ (ys ++ zs)) =
        omega (arith, sizes, sizes') in
      (
        m3,
        rw (add_value, e1, e2, e3, end) refl,
        Writes-append xs (ys ++ zs) i m m1 m3 w1
            (Writes-append ys zs (i + length xs) m1 m2 m3 w2 w3),
      )

  pub get_put_proxy_of :
      (p : MessagePutProxy) (m : Buffer) (i : ℕ)
      → IsMessage (put_proxy p)
      → i + length (value_wire (put_proxy p)) + 300 < 2 ^ 32
      → HoldsList (value_wire (put_proxy p)) m i
      → get_put_proxy host m i ≡ some (i + length (value_wire (put_proxy p)), p)
  unfolding get_put_proxy
  get_put_proxy_of p m i (fits, source, destination) room holds =
      let xs = id_wire p.destination_id in
      let ys = lv_wire p.source_file_name in
      let zs = lv_wire p.destination_file_name in
      let sizes = length-append xs (ys ++ zs) in
      let sizes' = length-append ys zs in
      let behind = HoldsList-back xs (ys ++ zs) m i holds in
      let e1 =
        get_id_of host p.destination_id m i fits (omega arith)
          (HoldsList-front xs (ys ++ zs) m i holds) in
      let e2 =
        copy_lv_of host p.source_file_name m (i + length xs) source
          (HoldsList-front ys zs m (i + length xs) behind) in
      let e3 =
        copy_lv_of host p.destination_file_name m (i + length xs + length ys) destination
          (HoldsList-back ys zs m (i + length xs) behind) in
      let i1 : u32 (i + length xs + (p.source_file_name.length + 1)) ≡ i + length xs + length ys =
        omega (arith, sizes, sizes', source.0) in
      let i2 : u32 (i + length xs + length ys + (p.destination_file_name.length + 1))
          ≡ i + length (xs ++ (ys ++ zs)) =
        omega (arith, sizes, sizes', destination.0) in
      rw (get_put_proxy, e1, e2, i1, e3, i2) refl

  pub get_cont_part_of :
      (p : MessageContPartRequest) (m : Buffer) (i : ℕ)
      → IsMessage (cont_part p)
      → i + length (value_wire (cont_part p)) + 300 < 2 ^ 32
      → HoldsList (value_wire (cont_part p)) m i
      → get_cont_part host m i ≡ some (i + length (value_wire (cont_part p)), p)
  unfolding get_cont_part
  get_cont_part_of p m i (f1, f2, f3) room holds =
      let xs = id_wire p.destination_id in
      let ys = id_wire p.originator_id in
      let zs = id_wire p.transaction_id in
      let sizes = length-append xs (ys ++ zs) in
      let sizes' = length-append ys zs in
      let behind = HoldsList-back xs (ys ++ zs) m i holds in
      let e1 =
        get_id_of host p.destination_id m i f1 (omega arith)
          (HoldsList-front xs (ys ++ zs) m i holds) in
      let e2 =
        get_id_of host p.originator_id m (i + length xs) f2 (omega (arith, sizes, sizes'))
          (HoldsList-front ys zs m (i + length xs) behind) in
      let e3 =
        get_id_of host p.transaction_id m (i + length xs + length ys) f3
          (omega (arith, sizes, sizes')) (HoldsList-back ys zs m (i + length xs) behind) in
      let end : i + length xs + length ys + length zs ≡ i + length (xs ++ (ys ++ zs)) =
        omega (arith, sizes, sizes') in
      rw (get_cont_part, e1, e2, e3, end) refl
