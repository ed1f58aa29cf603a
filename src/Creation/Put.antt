-- ===== src/Creation/Put.antt =====
-- requests.c and filesystem_funcs.c: a request to send a file. The calls of the operating system are
-- arguments.
pub mod Cases
use ccsds_file_delivery_prot.Common.{
  ℕ, ◌+◌, ◌==◌, if◌then◌else◌, Bool, true, false, not, ◌||◌, Option, none, some, u32, List, [],
}
use ccsds_file_delivery_prot.Wire.{Buffer, Bytes, at, memcpy}
use ccsds_file_delivery_prot.File.Missing.{Offset, add_first_offset}
use ccsds_file_delivery_prot.Message.{strnlen, max_path}
use ccsds_file_delivery_prot.Request.{Request, File, RequestProcedure, sending_start}

-- What the calls on a file of some name give: whether it can be opened, and closed, the position of its
-- end, `none` for -1, whether it can be opened or else be made, and whether there is memory for it and
-- for its first offset and the node of that.
pub record FileCalls : Type 0 where
  pub ssp_open : Bytes → Bool
  pub ssp_close : Bytes → Bool
  pub ssp_lseek_end : Bytes → Option ℕ
  pub open_or_create : Bytes → Bool
  pub file_memory : Bool
  pub offset_memory : Bool
  pub node_memory : Bool

-- `none` is -1.
unfoldable pub does_file_exist : FileCalls → Bytes → Option ℕ
does_file_exist calls name =
    if not (calls.ssp_open name) then none else if not (calls.ssp_close name) then none else some 1

-- The `bool` of that `int`: -1 is true.
abbrev pub to_bool : Option ℕ → Bool
to_bool none = true
to_bool (some n) = not (n == 0)

abbrev pub size_of : Option ℕ → Bool → Option ℕ
size_of none closed = none
size_of (some bytes) closed = if not closed then none else some bytes

unfoldable pub get_file_size : FileCalls → Bytes → Option ℕ
get_file_size calls name =
    if not (calls.ssp_open name)
    then none
    else size_of (calls.ssp_lseek_end name) (calls.ssp_close name)

abbrev pub file_of : Bool → Option ℕ → Option File
file_of memory none = none
file_of memory (some size) =
    if not memory
    then none
    else some (record {
      is_temp = false;
      next_offset_to_send = 0;
      total_size = size;
      partial_checksum = 0;
      eof_checksum = 0;
      missing_offsets = [];
    })

-- The size of a file that was just made is asked of the same calls.
unfoldable pub create_file : FileCalls → Bytes → Option File
create_file calls name =
    if not (calls.open_or_create name)
    then none
    else file_of calls.file_memory (get_file_size calls name)

-- Whether the request was configured, the request, and the next transaction number.
pub record Configured : Type 0 where
  pub ok : Bool
  pub request : Request
  pub next_number : ℕ

module _ (calls : FileCalls) (my_cfdp_id number transmission_mode : ℕ) where
  abbrev pub begun : Request → Request
  begun req = record req {
    my_cfdp_id = my_cfdp_id;
    transmission_mode = transmission_mode;
    procedure = sending_start;
  }

  abbrev pub refused : Request → Configured
  refused req = record { ok = false; request = begun req; next_number = number }

  abbrev pub numbered : Request → Configured
  numbered req = record {
    ok = true;
    request = record req { transaction_sequence_number = number };
    next_number = u32 (number + 1);
  }

  abbrev pub with_missing : Bytes → Bytes → ℕ → Request → File → Option (List Offset) → Configured
  with_missing source destination size req file none = refused req
  with_missing source destination size req file (some missing) =
      let req = begun req in
      numbered (record req {
        file = some (record file { missing_offsets = missing });
        file_size = size;
        source_file_name = memcpy req.source_file_name 0 source (strnlen source max_path);
        destination_file_name =
            memcpy req.destination_file_name 0 destination (strnlen destination max_path);
      })

  -- A file whose first offset finds no memory is freed, and its request is not used again.
  abbrev pub with_file : Bytes → Bytes → ℕ → Request → Option File → Configured
  with_file source destination size req none = refused req
  with_file source destination size req (some file) =
      with_missing source destination size req file (
        add_first_offset calls.offset_memory calls.node_memory file.missing_offsets file.total_size)

  abbrev pub with_size : Bytes → Bytes → Request → Option ℕ → Configured
  with_size source destination req none = refused req
  with_size source destination req (some size) =
      with_file source destination size req (create_file calls source)

  -- A name is `none` for NULL; the outer `none` is a name that is followed as NULL.
  unfoldable pub put_request_no_client : Option Bytes → Option Bytes → Request → Option Configured
  put_request_no_client none none req = some (numbered (begun req))
  put_request_no_client (some source) none req = none
  put_request_no_client none (some destination) req = none
  put_request_no_client (some source) (some destination) req =
      if (strnlen source max_path == 0) || (strnlen destination max_path == 0)
      then some (refused req)
      else if not (to_bool (does_file_exist calls source))
      then some (refused req)
      else some (with_size source destination req (get_file_size calls source))
