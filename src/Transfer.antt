-- ===== src/Transfer.antt =====
-- protocol_handler.c, packet.c and filesystem_funcs.c: a sender's burst as a receiver takes it.
use ccsds_file_delivery_prot.Common.{
  ℕ, zero, suc, ◌+◌, ◌-◌, ◌^◌, ◌≤◌, ◌<◌, ◌≡◌, refl, ap, sym, ◌∙◌, subst, arith, Bool, false, Option,
  some, List, [], ◌∷◌, ◌++◌, map, Returns-result,
}
use ccsds_file_delivery_prot.Wire.{Buffer, Endian, get32, get16}
use ccsds_file_delivery_prot.Wire.Access.{get16-join16, get32-join32}
use ccsds_file_delivery_prot.File.Checksum.Spec.{HasBytes}
use ccsds_file_delivery_prot.File.Missing.{
  Offset, Received, taken, receive_offset, receive_at, find_nak,
}
use ccsds_file_delivery_prot.File.Missing.Ranges.{missing, Rising}
use ccsds_file_delivery_prot.File.Missing.Receive.{has_memory}
use ccsds_file_delivery_prot.File.Missing.Transfer.{whole_file}
use ccsds_file_delivery_prot.Packet.Fields.{get_data_length}
use ccsds_file_delivery_prot.Request.{File}
use ccsds_file_delivery_prot.Reception.{
  Port, Reception, get_data_offset_from_packet, process_data_packet, receive_packets,
}
use ccsds_file_delivery_prot.Reception.Segment.{Writes, Delivered, process_data_packet-Delivered}
use ccsds_file_delivery_prot.Sending.Segment.{Reads}
use ccsds_file_delivery_prot.Sender.Packet.{arrival, Carries, CarriesFrom}
use ccsds_file_delivery_prot.Sender.Burst.{span, send_burst-Bursts}
use ccsds_file_delivery_prot.Sender.{Sender, send_burst}

abbrev range : ℕ → ℕ → List Offset
range start end = record { start = start; end = end } ∷ []

-- A segment at the start of the only range that is missing.
receive_offset_first :
    (o c end : ℕ)
    → 0 < c
    → o + c < end
    → receive_offset has_memory (range o end) o (o + c) ≡ (taken, range (o + c) end)
unfolding receive_offset receive_at find_nak
receive_offset_first o c end pos more = ground arith

receive_offset_last :
    (o c : ℕ) → 0 < c → receive_offset has_memory (range o (o + c)) o (o + c) ≡ (taken, [])
unfolding receive_offset receive_at find_nak
receive_offset_last o c pos = ground arith

nothing_arrived :
    (contents : Buffer) (size : ℕ) (r : Reception)
    → r.file.missing_offsets ≡ whole_file size
    → Delivered contents size r
unfolding missing
nothing_arrived contents size r whole b small gone =
    let here : missing (whole_file size) b ≡ false =
      ap (λ (l : List Offset). missing l b) (sym whole) ∙ gone in
    absurd (ground (arith, here))

module _ (host host' : Endian) where
  -- A receiver of any byte order takes a data PDU as its sender meant it.
  Carries-host :
      (contents : Buffer) (start : ℕ) (m : Buffer) (o c : ℕ)
      → Carries host contents start m o c
      → Carries host' contents start m o c
  unfolding get_data_offset_from_packet get_data_length
  Carries-host contents start m o c (offset, long, segment) =
      let same_offset : get32 host' m start ≡ get32 host m start =
        get32-join32 host' m start segment.bytes ∙ sym (get32-join32 host m start segment.bytes) in
      let same_length : get16 host' m 1 ≡ get16 host m 1 =
        get16-join16 host' m 1 segment.bytes ∙ sym (get16-join16 host m 1 segment.bytes) in
      (
        same_offset ∙ offset,
        same_length ∙ long,
        record {
          bytes = segment.bytes;
          long = omega (arith, same_length, segment.long);
          short = omega (arith, same_length, segment.short);
          low = omega (arith, same_length, same_offset, segment.low);
          same = λ k lt.
              segment.same k (omega (arith, lt, same_length))
              ∙ ap (λ (x : ℕ). contents.byte (x + k)) (sym same_offset);
        },
      )

module _ (host' : Endian) (port' : Port) (works : Writes port') (fuel : ℕ) (enough : 2 ^ 14 < fuel)
    (contents : Buffer) (start size : ℕ) where
  abbrev IsComplete : Reception → Type 0
  IsComplete r =
      (r.file.missing_offsets ≡ [])
      × ((b : ℕ) → b < size → r.disk.contents.byte b ≡ contents.byte b)

  -- One data PDU at the start of the range.
  process_first :
      (o c end : ℕ) (m : Buffer) (r : Reception) (left : List Offset)
      → Carries host' contents start m o c
      → r.file.missing_offsets ≡ range o end
      → o < end
      → Delivered contents size r
      → (receive_offset has_memory (range o end) o (o + c)).1 ≡ left
      → (r' : Reception) × (process_data_packet host' port' fuel has_memory m start
            (get_data_length host' m)
            r
          ≡ some r')
        × (r'.file.missing_offsets ≡ left)
        × Delivered contents size r'
  process_first o c end m r left (offset, long, segment) whole pos delivered leaves =
      let rising : Rising 0 r.file.missing_offsets =
        subst (Rising 0) (sym whole) (omega arith, pos, tt) in
      let count : get_data_length host' m - 4 ≡ c = omega (arith, long) in
      let same_end : get_data_offset_from_packet host' m start + (get_data_length host' m - 4)
          ≡ o + c =
        omega (arith, offset, count) in
      let (r', run, (left', _, delivered')) =
        Returns-result
          {P = λ r'.
            (r'.file.missing_offsets
              ≡ (receive_offset has_memory r.file.missing_offsets
                  (get_data_offset_from_packet host' m start)
                  (get_data_offset_from_packet host' m start + (get_data_length host' m - 4))).1)
            × Rising 0 r'.file.missing_offsets
            × Delivered contents size r'}
          _
          (process_data_packet-Delivered host' port' works fuel enough contents size 0
            (arrival host' start m) segment r rising delivered) in
      (
        r',
        run,
        left'
            ∙ ap
                (λ (l : List Offset).
                  (receive_offset has_memory l (get_data_offset_from_packet host' m start)
                    (get_data_offset_from_packet host' m start + (get_data_length host' m - 4))).1)
                whole
            ∙ ap
                (λ (e : ℕ).
                  (receive_offset has_memory (range o end)
                    (get_data_offset_from_packet host' m start) e).1)
                same_end
            ∙ ap (λ (b : ℕ). (receive_offset has_memory (range o end) b (o + c)).1) offset
            ∙ leaves,
        delivered',
      )

  abbrev Completes : List Buffer → Reception → Type 0
  Completes packets r =
      (r' : Reception) × (receive_packets host' port' fuel has_memory
          (map (arrival host' start) packets) r
        ≡ some r')
      × IsComplete r'

  span_pos :
      (n last k o : ℕ) (packets : List Buffer)
      → CarriesFrom host' contents start n last k o packets
      → 0 < span n k last
  span_pos n last zero o packets (m, only, carried) = omega (arith, carried.1, carried.2.long)
  span_pos n last (suc k) o packets (m, ms, all, carried, rest) =
      omega (arith, span_pos n last k (o + n) ms rest)

  -- Segments that arrive in order fill the range.
  receive_burst :
      (n last k o : ℕ) (packets : List Buffer) (r : Reception)
      → CarriesFrom host' contents start n last k o packets
      → r.file.missing_offsets ≡ range o (o + span n k last)
      → Delivered contents size r
      → Completes packets r
  unfolding receive_packets missing
  receive_burst n last zero o packets r (m, only, carried) whole delivered =
      let pos : 0 < last = omega (arith, carried.1, carried.2.long) in
      let (r', run, empty, delivered') =
        process_first o last (o + last) m r [] carried whole (omega (arith, pos)) delivered
          (ap (λ (x : Received × List Offset). x.1) (receive_offset_last o last pos)) in
      subst (λ (ps : List Buffer). Completes ps r) (sym only)
        (
          r',
          rw (receive_packets, run) refl,
          (empty, λ b lt. delivered' b lt (ap (λ (l : List Offset). missing l b) empty)),
        )
  receive_burst n last (suc k) o packets r (m, ms, all, carried, rest) whole delivered =
      let pos : 0 < n = omega (arith, carried.1, carried.2.long) in
      let left = span_pos n last k (o + n) ms rest in
      let same_end : o + n + span n k last ≡ o + (n + span n k last) = omega arith in
      let (r', run, whole', delivered') =
        process_first o n (o + (n + span n k last)) m r (range (o + n) (o + n + span n k last))
          carried whole (omega (arith, pos)) delivered
          (ap (λ (x : Received × List Offset). x.1)
              (receive_offset_first o n (o + (n + span n k last)) pos (omega (arith, left)))
            ∙ ap (range (o + n)) (sym same_end)) in
      let (r2, runs, complete) = receive_burst n last k (o + n) ms r' rest whole' delivered' in
      subst (λ (ps : List Buffer). Completes ps r) (sym all)
        (r2, rw (receive_packets, run) runs, complete)

module _ (host host' : Endian) where
  CarriesFrom-host :
      (contents : Buffer) (start n r k o : ℕ) (packets : List Buffer)
      → CarriesFrom host contents start n r k o packets
      → CarriesFrom host' contents start n r k o packets
  CarriesFrom-host contents start n r zero o packets (m, only, carried) =
      (m, only, Carries-host host host' contents start m o r carried)
  CarriesFrom-host contents start n r (suc k) o packets (m, ms, all, carried, rest) = (
    m,
    ms,
    all,
    Carries-host host host' contents start m o n carried,
    CarriesFrom-host contents start n r k (o + n) ms rest,
  )

-- What a burst and its reception come to: `packets` are sent, and received they leave no byte missing
-- and the file on the receiver's disk.
abbrev pub Transfers :
    Endian → Port → ℕ → ℕ → Sender → File → Reception → Option (Bool × Sender) → Type 0
Transfers host' port' fuel start s file r result =
    (s' : Sender) × (packets : List Buffer) × (r' : Reception) × (result ≡ some (false, s'))
    × (s'.turn.sent ≡ s.turn.sent ++ packets)
    × (receive_packets host' port' fuel has_memory (map (arrival host' start) packets) r ≡ some r')
    × (r'.file.missing_offsets ≡ [])
    × ((b : ℕ) → b < file.total_size → r'.disk.contents.byte b ≡ s.disk.contents.byte b)

module _ (host host' : Endian) (port port' : Port) (fuel start : ℕ) (low : 3 ≤ start)
    (enough : 2 ^ 14 < fuel) where
  -- A burst from an open client sends a file below 2 ^ 31 - 2 ^ 16 that was not begun, and a receiver
  -- that misses the whole file and takes the packets in order, with the lengths their headers give,
  -- returns with no byte missing and with the sender's file on its disk; the two hosts may differ in
  -- byte order. What is sent is some full data PDUs and a last one of four bytes at least, and there
  -- is one round for each. The sender's disk can be read and, like its buffer, holds bytes; a packet
  -- has room for four bytes of the file and is shorter than 2 ^ 16; the receiver's disk works, it has
  -- enough memory, and there is enough fuel for a checksum.
  pub send_burst-receive_packets :
      (k last rounds : ℕ) (s : Sender) (file : File) (r : Reception)
      → s.turn.request.file ≡ some file
      → Reads port file.total_size
      → Writes port'
      → start + 8 ≤ s.turn.request.packet_len
      → s.turn.request.packet_len < 2 ^ 16
      → file.total_size + 2 ^ 16 < 2 ^ 31
      → HasBytes s.turn.request.buff
      → HasBytes s.disk.contents
      → file.next_offset_to_send ≡ 0
      → file.total_size ≡ span (s.turn.request.packet_len - start - 4) k last
      → 4 ≤ last
      → last ≤ s.turn.request.packet_len - start - 4
      → k < rounds
      → r.file.missing_offsets ≡ whole_file file.total_size
      → Transfers host' port' fuel start s file r
          (send_burst host port fuel rounds (λ _. false) start s)
  send_burst-receive_packets k last rounds s file r has reads works room small fits bytes source
        begin cut four last_fits less whole =
      let n = s.turn.request.packet_len - start - 4 in
      let (s', packets, run, sent, _, carried, _) =
        send_burst-Bursts host port fuel start low enough k last rounds s file has reads room small
          fits bytes source (omega (arith, begin, cut)) four last_fits less in
      let from_0 : CarriesFrom host' s.disk.contents start n last k 0 packets =
        CarriesFrom-host host host' s.disk.contents start n last k 0 packets (
          subst (λ (o : ℕ). CarriesFrom host s.disk.contents start n last k o packets) begin
            carried) in
      let (r', received, (empty, same)) =
        receive_burst host' port' works fuel enough s.disk.contents start file.total_size n last k 0
          packets r from_0 (whole ∙ ap (range 0) (omega (arith, cut)))
          (nothing_arrived s.disk.contents file.total_size r whole) in
      (s', packets, r', run, sent, received, empty, same)
