-- ===== src/Sender/Burst.antt =====
-- `acknowledged_start` and `unacknowledged_start` (protocol_handler.c): the burst of data PDUs.
use mathlib.Core.List.{append_assoc}
use ccsds_file_delivery_prot.Common.{
  ℕ, zero, suc, ◌+◌, ◌-◌, ◌^◌, ◌≤◌, ◌<◌, ◌≡◌, refl, ap, ◌∙◌, subst, arith, ◌==◌, leb, Bool, true,
  false, Option, none, some, List, [], ◌∷◌, ◌++◌, length, Returns,
}
use ccsds_file_delivery_prot.Wire.{Buffer, Endian}
use ccsds_file_delivery_prot.File.Checksum.Spec.{HasBytes}
use ccsds_file_delivery_prot.Request.{File, ssp_sendto}
use ccsds_file_delivery_prot.Reception.{Port}
use ccsds_file_delivery_prot.Sending.Segment.{Reads}
use ccsds_file_delivery_prot.Sender.Packet.{
  Carries, CarriesFrom, c, packet, counted, carries, create_steps,
}
use ccsds_file_delivery_prot.Sender.{
  Sender, with_request, sent_out, create_data_burst_packets, send_data, send_burst, send_file_data,
  after_data, unless_ended,
}

-- The bytes of `k` full data PDUs of `n` bytes, and of a last one of `r`.
abbrev pub span : ℕ → ℕ → ℕ → ℕ
span n zero r = r
span n (suc k) r = n + span n k r

span-le : (n k r : ℕ) → 4 ≤ r → 4 ≤ span n k r
span-le n zero r four = four
span-le n (suc k) r four = omega (arith, span-le n k r four)

-- The file was sent to its end.
abbrev pub IsAtEnd : Sender → Type 0
IsAtEnd s = Returns (λ file. file.next_offset_to_send ≡ file.total_size) s.turn.request.file

-- What a burst leaves behind.
abbrev pub Bursts : Endian → ℕ → ℕ → ℕ → ℕ → Sender → File → Option (Bool × Sender) → Type 0
Bursts host start k n r s file result =
    (s' : Sender) × (packets : List Buffer) × (result ≡ some (false, s'))
    × (s'.turn.sent ≡ s.turn.sent ++ packets)
    × (length packets ≡ k + 1)
    × CarriesFrom host s.disk.contents start n r k file.next_offset_to_send packets
    × IsAtEnd s'

module _ (host : Endian) (port : Port) (fuel start : ℕ) (low : 3 ≤ start)
    (enough : 2 ^ 14 < fuel) where
  module _ (s : Sender) (file : File) (has : s.turn.request.file ≡ some file)
      (reads : Reads port file.total_size) (room : start + 8 ≤ s.turn.request.packet_len)
      (small : s.turn.request.packet_len < 2 ^ 16)
      (inside : file.next_offset_to_send + 4 ≤ file.total_size)
      (fits : file.total_size + 2 ^ 16 < 2 ^ 31) (bytes : HasBytes s.turn.request.buff)
      (source : HasBytes s.disk.contents) where
    abbrev c' : ℕ
    c' =
        c host port fuel file s.disk s.turn.request.buff start s.turn.request.packet_len reads low
          room small inside fits enough bytes source

    abbrev file' : File
    file' =
        counted host port fuel file s.disk s.turn.request.buff start s.turn.request.packet_len reads
          low room small inside fits enough bytes source

    abbrev packet' : Buffer
    packet' =
        packet host port fuel file s.disk s.turn.request.buff start s.turn.request.packet_len reads
          low room small inside fits enough bytes source

    abbrev after : Sender
    after =
        sent_out
          (record (with_request s (record s.turn.request { file = some file'; buff = packet' })) {
            disk = record s.disk { position = file.next_offset_to_send + c' };
          })

    send_data_steps :
        send_data host port fuel start s
        ≡ some (file.next_offset_to_send + c' == file.total_size, after)
    unfolding send_data
    send_data_steps =
        ap (send_file_data host port fuel start s) has
        ∙ ap (after_data host port fuel s) (
            create_steps host port fuel file s.disk s.turn.request.buff start
              s.turn.request.packet_len reads low room small inside fits enough bytes source)

    carries' :
        Carries host s.disk.contents start packet' file.next_offset_to_send c' × HasBytes packet'
    carries' =
        carries host port fuel file s.disk s.turn.request.buff start s.turn.request.packet_len reads
          low room small inside fits enough bytes source

  -- A burst from an open client sends a file below 2 ^ 31 - 2 ^ 16 from its next offset to its end: if
  -- what is left is some full data PDUs and a last one of four bytes at least, as many packets are
  -- sent, in order, and each carries its segment of the file on the disk, with its offset and length. The disk can
  -- be read and, like the buffer, holds bytes; a packet has room for four bytes of the file and is
  -- shorter than 2 ^ 16; there is one round for each packet, and enough fuel for a checksum.
  pub send_burst-Bursts :
      (k r rounds : ℕ) (s : Sender) (file : File)
      → s.turn.request.file ≡ some file
      → Reads port file.total_size
      → start + 8 ≤ s.turn.request.packet_len
      → s.turn.request.packet_len < 2 ^ 16
      → file.total_size + 2 ^ 16 < 2 ^ 31
      → HasBytes s.turn.request.buff
      → HasBytes s.disk.contents
      → file.total_size
        ≡ file.next_offset_to_send + span (s.turn.request.packet_len - start - 4) k r
      → 4 ≤ r
      → r ≤ s.turn.request.packet_len - start - 4
      → k < rounds
      → Bursts host start k
          (s.turn.request.packet_len - start - 4)
          r
          s
          file
          (send_burst host port fuel rounds (λ _. false) start s)
  unfolding send_burst ssp_sendto
  send_burst-Bursts k r zero s file has reads room small fits bytes source cut four last less =
      absurd (omega (arith, less))
  send_burst-Bursts zero r (suc rounds) s file has reads room small fits bytes source cut four last
        less =
      let inside : file.next_offset_to_send + 4 ≤ file.total_size = omega (arith, cut) in
      let step = send_data_steps s file has reads room small inside fits bytes source in
      let carried = carries' s file has reads room small inside fits bytes source in
      let s1 = after s file has reads room small inside fits bytes source in
      let n = c' s file has reads room small inside fits bytes source in
      let end : file.next_offset_to_send + n ≡ file.total_size = omega (arith, cut) in
      let is_end : (file.next_offset_to_send + n == file.total_size) ≡ true = ground (arith, end) in
      (
        s1,
        packet' s file has reads room small inside fits bytes source ∷ [],
        ap
              (unless_ended host port fuel (λ _. false)
                (send_burst host port fuel rounds (λ _. false) start))
              step
            ∙ (rw is_end refl),
        refl,
        refl,
        (
          packet' s file has reads room small inside fits bytes source,
          refl,
          subst
              (λ (x : ℕ).
                Carries host s.disk.contents start
                  (packet' s file has reads room small inside fits bytes source)
                  file.next_offset_to_send x)
              (omega (arith, end)) carried.0,
        ),
        end,
      )
  send_burst-Bursts (suc k) r (suc rounds) s file has reads room small fits bytes source cut four
        last less =
      let size = s.turn.request.packet_len - start - 4 in
      let more = span-le size k r four in
      let inside : file.next_offset_to_send + 4 ≤ file.total_size = omega (arith, cut, more) in
      let step = send_data_steps s file has reads room small inside fits bytes source in
      let carried = carries' s file has reads room small inside fits bytes source in
      let s1 = after s file has reads room small inside fits bytes source in
      let f1 = file' s file has reads room small inside fits bytes source in
      let m1 = packet' s file has reads room small inside fits bytes source in
      let n = c' s file has reads room small inside fits bytes source in
      let full : n ≡ size = omega (arith, cut, more) in
      let not_end : (file.next_offset_to_send + n == file.total_size) ≡ false =
        ground (arith, full, cut, more) in
      let (s2, packets, run, sent, len, all, end) =
        send_burst-Bursts k r rounds s1 f1 refl reads room small fits carried.1 source
          (omega (arith, cut, full)) four last (omega (arith, less)) in
      (
        s2,
        m1 ∷ packets,
        ap
              (unless_ended host port fuel (λ _. false)
                (send_burst host port fuel rounds (λ _. false) start))
              step
            ∙ (rw not_end run),
        sent ∙ append_assoc s.turn.sent (m1 ∷ []) packets,
        omega (arith, len),
        (
          m1,
          packets,
          refl,
          subst (λ (x : ℕ). Carries host s.disk.contents start m1 file.next_offset_to_send x) full
              carried.0,
          subst
              (λ (x : ℕ).
                CarriesFrom host s.disk.contents start size r k (file.next_offset_to_send + x)
                  packets)
              full all,
        ),
        end,
      )

module _ (host : Endian) (port : Port) (fuel start : ℕ) where
  at_end_steps :
      (s : Sender) (file : File)
      → s.turn.request.file ≡ some file
      → file.total_size ≤ file.next_offset_to_send
      → send_data host port fuel start s
        ≡ some (false, sent_out (with_request s (record s.turn.request { file = some file })))
  unfolding send_data create_data_burst_packets
  at_end_steps s file has at_end =
      let all : leb file.total_size file.next_offset_to_send ≡ true = ground arith in
      ap (send_file_data host port fuel start s) has ∙ (rw all refl)

  -- A burst from an open client never ends for a file that has already been sent to its end: there is
  -- no result after any number of rounds.
  pub send_burst_at_end :
      (rounds : ℕ) (s : Sender) (file : File)
      → s.turn.request.file ≡ some file
      → file.total_size ≤ file.next_offset_to_send
      → send_burst host port fuel rounds (λ _. false) start s ≡ none
  unfolding send_burst ssp_sendto
  send_burst_at_end zero s file has at_end = refl
  send_burst_at_end (suc rounds) s file has at_end =
      ap
        (unless_ended host port fuel (λ _. false)
          (send_burst host port fuel rounds (λ _. false) start))
        (at_end_steps s file has at_end)
      ∙ send_burst_at_end rounds
          (sent_out (with_request s (record s.turn.request { file = some file }))) file refl at_end
