-- ===== src/Tests/Sessions.antt =====
-- The theorems on put requests, each used on an example.
use ccsds_file_delivery_prot.Common.{refl, arith, ◌⊎◌, if◌then◌else◌, ltb, true, some, [], Returns}
use ccsds_file_delivery_prot.Creation.Put.{FileCalls}
use ccsds_file_delivery_prot.Session.{Session, SessionCalls, put_request}
use ccsds_file_delivery_prot.Session.Numbers.{IsNumbered, put_request-IsNumbered}
use ccsds_file_delivery_prot.Session.Placing.{IsPlaced, IsLeft, put_request-IsPlaced}
use ccsds_file_delivery_prot.Wire.{Bytes}
use ccsds_file_delivery_prot.Tests.{a_header, a_disk, a_remote, filled_with}

abbrev open_files : FileCalls
open_files = record {
  ssp_open = λ name. true;
  ssp_close = λ name. true;
  ssp_lseek_end = λ name. some 10;
  open_or_create = λ name. true;
  file_memory = true;
  offset_memory = true;
  node_memory = true;
}

abbrev calls : SessionCalls
calls = record {
  files = open_files;
  get_remote_entity_from_json = λ id. some a_remote;
  client_memory = true;
  buff = filled_with 0;
  on_heap = a_header;
  thread_created = true;
  node_memory = true;
  request_node_memory = true;
  allocated = some 64;
  now = 50;
  file_on_disk = a_disk;
  saved = λ req. true;
}

abbrev a_session : Session
a_session = record {
  my_cfdp_id = 5;
  packet_len = 100;
  transaction_sequence_number = 9;
  active_clients = [];
}

abbrev a_name : Bytes
a_name k = if ltb k 3 then 97 else 0

put_request-IsNumbered_example :
    Returns
      (λ put. IsNumbered put.app)
      (put_request calls 3 (some a_name) (some a_name) 0 a_session)
put_request-IsNumbered_example =
    put_request-IsNumbered calls 3 0 (some a_name) (some a_name) a_session refl (λ n. omega arith)
      (omega arith)

put_request-IsPlaced_example :
    Returns
      (λ put. IsPlaced calls 3 (some a_name) a_session put ⊎ IsLeft a_session put)
      (put_request calls 3 (some a_name) (some a_name) 0 a_session)
put_request-IsPlaced_example =
    put_request-IsPlaced calls 3 0 (some a_name) (some a_name) a_session refl
