-- ===== src/Packet/Nak/Total.antt =====
-- When `build_nak_packet` (packet.c) has a result.
use ccsds_file_delivery_prot.Common.{ℕ, ◌≡◌, ◌≢◌, refl, arith, List, [], ◌∷◌, none, some, last?}
use ccsds_file_delivery_prot.Wire.{Buffer, Endian}
use ccsds_file_delivery_prot.File.Missing.{Offset}
use ccsds_file_delivery_prot.Packet.Nak.{build_nak_packet}

last?-some {ℓ} : {A : Type ℓ} → (x : A) (xs : List A) → (y : A) × (last? (x ∷ xs) ≡ some y)
last?-some x [] = (x, refl)
last?-some x (y ∷ ys) = last?-some y ys

pub build_nak_packet_total :
    (host : Endian) (m : Buffer) (start packet_len : ℕ) (xs : List Offset)
    → xs ≢ []
    → build_nak_packet host m start packet_len xs ≢ none
unfolding build_nak_packet
build_nak_packet_total host m start packet_len [] ne = absurd (ne refl)
build_nak_packet_total host m start packet_len (o ∷ os) ne =
    let (y, e) = last?-some o os in ground (arith, e)
