-- ===== src/Tests/Bursts.antt =====
-- The theorems on the sender's burst, each used on an example.
use ccsds_file_delivery_prot.Common.{◌≡◌, refl, arith, false, none, some}
use ccsds_file_delivery_prot.Wire.{big}
use ccsds_file_delivery_prot.Request.{File}
use ccsds_file_delivery_prot.Sender.{Sender, send_burst}
use ccsds_file_delivery_prot.Sender.Burst.{Bursts, send_burst-Bursts, send_burst_at_end}
use ccsds_file_delivery_prot.Tests.{a_turn, a_file, a_disk, working_port, working_port-Reads}

-- Ten bytes to send, in packets of 22 bytes.
abbrev pub a_sender : Sender
a_sender = record {
  turn = record a_turn { request = record a_turn.request { file = some a_file; packet_len = 22 } };
  disk = a_disk;
}

send_burst-Bursts_example :
    Bursts big 12 1 6 4 a_sender a_file
      (send_burst big working_port 20_000 2 (λ _. false) 12 a_sender)
send_burst-Bursts_example =
    send_burst-Bursts big working_port 20_000 12 (omega arith) (omega arith) 1 4 2 a_sender a_file
      refl working_port-Reads (omega arith) (omega arith) (omega arith) (λ i. omega arith)
      (λ i. omega arith) refl (omega arith) (omega arith) (omega arith)

abbrev a_sent_file : File
a_sent_file = record a_file { next_offset_to_send = 10 }

abbrev a_late_sender : Sender
a_late_sender = record a_sender {
  turn = record a_sender.turn {
    request = record a_sender.turn.request { file = some a_sent_file };
  };
}

send_burst_at_end_example :
    send_burst big working_port 20_000 50 (λ _. false) 12 a_late_sender ≡ none
send_burst_at_end_example =
    send_burst_at_end big working_port 20_000 12 50 a_late_sender a_sent_file refl (omega arith)
