-- ===== src/Clock.antt =====
-- app_control.c: the time-outs of a request. An `int` is given by its 32 bits; the readings of
-- `ssp_time_count` are arguments.
pub mod Rate
use ccsds_file_delivery_prot.Common.{
  ℕ, ◌+◌, ◌/◌, ◌==◌, ltb, leb, if◌then◌else◌, Bool, true, false, ◌&&◌, ◌||◌, u32, List, [], ◌∷◌,
  ◌++◌,
}
use ccsds_file_delivery_prot.Request.{Request, LocalEntity, clean_up, un_acknowledged_mode}

-- The order of the integers that bits stand for.
abbrev pub biased : ℕ → ℕ
biased x = u32 (x + 0x8000_0000)

-- Whether the time has passed, and the time that is kept.
unfoldable pub check_timeout : ℕ → ℕ → ℕ → Bool × ℕ
check_timeout current_time prev timeout =
    let time_out = u32 (prev + timeout) in
    if leb (biased time_out) (biased current_time)
    then (true, current_time)
    else if ltb (biased current_time) (biased prev)
    then (false, current_time)
    else (false, prev)

-- Whether a request that ends is to be opened again later.
abbrev pub is_unfinished : Request → Bool
is_unfinished req =
    if req.local_entity.transaction_finished_indication
      || (req.transmission_mode == un_acknowledged_mode)
    then false
    else true

-- The requests that are saved to a file, and the request after it.
unfoldable pub timeout : ℕ → ℕ → ℕ → Request → List Request × Request
timeout now later time_out_before_cancel req =
    let (is_timeout, kept) = check_timeout now req.timeout_before_cancel time_out_before_cancel in
    let req : Request = record req { timeout_before_cancel = kept } in
    let saved = if is_timeout && is_unfinished req then req ∷ [] else [] in
    let req : Request = if is_timeout then record req { procedure = clean_up } else req in
    let (is_journal, kept) =
      check_timeout later req.timeout_before_journal (time_out_before_cancel / 2) in
    let req : Request = record req { timeout_before_journal = kept } in
    if is_journal then (saved ++ (req ∷ []), req) else (saved, req)

-- One check after another; the last time that is kept, and how often the time had passed.
unfoldable pub check_timeouts : List ℕ → ℕ → ℕ → ℕ × ℕ
check_timeouts [] prev timeout = (prev, 0)
check_timeouts (now ∷ rest) prev timeout =
    let (passed, prev) = check_timeout now prev timeout in
    let (last, times) = check_timeouts rest prev timeout in
    (last, if passed then times + 1 else times)
