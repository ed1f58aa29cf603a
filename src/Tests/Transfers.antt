-- ===== src/Tests/Transfers.antt =====
-- The theorem on a whole transfer, used on an example.
use ccsds_file_delivery_prot.Common.{refl, arith, false}
use ccsds_file_delivery_prot.Wire.{big, little}
use ccsds_file_delivery_prot.Reception.{Reception}
use ccsds_file_delivery_prot.File.Missing.Transfer.{whole_file}
use ccsds_file_delivery_prot.Sender.{send_burst}
use ccsds_file_delivery_prot.Transfer.{Transfers, send_burst-receive_packets}
use ccsds_file_delivery_prot.Tests.{
  a_file, a_disk, working_port, working_port-Reads, working_port-Writes,
}
use ccsds_file_delivery_prot.Tests.Bursts.{a_sender}

abbrev a_receiver : Reception
a_receiver = record {
  file = record a_file { missing_offsets = whole_file 10 };
  disk = record a_disk { contents = record { byte = λ i. 0 } };
}

-- A big-endian host sends ten bytes to a little-endian one.
send_burst-receive_packets_example :
    Transfers little working_port 20_000 12 a_sender a_file a_receiver
      (send_burst big working_port 20_000 2 (λ _. false) 12 a_sender)
send_burst-receive_packets_example =
    send_burst-receive_packets big little working_port working_port 20_000 12 (omega arith)
      (omega arith) 1 4 2 a_sender a_file a_receiver refl working_port-Reads working_port-Writes
      (omega arith) (omega arith) (omega arith) (λ i. omega arith) (λ i. omega arith) refl refl
      (omega arith) (omega arith) (omega arith) refl
