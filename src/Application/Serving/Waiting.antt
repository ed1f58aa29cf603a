-- ===== src/Application/Serving/Waiting.antt =====
-- `on_time_out_callback_server` (app_control.c): what a time-out changes among the requests of a server.
use ccsds_file_delivery_prot.Common.{
  ◌∷◌, arith, ℕ, ◌==◌, ◌≡◌, refl, subst, true, false, Option, none, some, List, [], All, length,
  if-cases, ap, Returns, Returns-result,
}
use ccsds_file_delivery_prot.Wire.{Endian}
use ccsds_file_delivery_prot.Request.{Turn}
use ccsds_file_delivery_prot.Server.{on_server_time_out}
use ccsds_file_delivery_prot.Server.Timeout.{on_server_time_out-Follows}
use ccsds_file_delivery_prot.Incoming.{Receiver}
use ccsds_file_delivery_prot.Incoming.Handler.{Ensures}
use ccsds_file_delivery_prot.Application.{Cell, Round, is_clean_up, check_requests}
use ccsds_file_delivery_prot.Application.Server.{
  Ftp, TimedOut, receivers, with_turn, timeout_check_server, after_round,
  on_time_out_callback_server,
}
use ccsds_file_delivery_prot.Application.Ids.{SameIds, on_server_time_out-SameIds}
use ccsds_file_delivery_prot.Application.Rounds.{
  Distinct, check_requests-kept, check_requests_returns,
}
use ccsds_file_delivery_prot.Application.Rounds.Ids.{check_requests-DistinctIds}
use ccsds_file_delivery_prot.Application.Sound.{DistinctIds}

with_turn-SameIds :
    (r r' : Receiver) (o : Option Turn)
    → Ensures (λ t. SameIds r.turn.request t.request) o
    → with_turn r o ≡ some r'
    → SameIds r.turn.request r'.turn.request
with_turn-SameIds r r' none same e = absurd (cc e)
with_turn-SameIds r r' (some t) same e =
    let left : record r { turn = t } ≡ r' = cc e in
    subst (λ (x : Receiver). SameIds r.turn.request x.turn.request) left same

pub timeout_check_server-SameIds :
    (host : Endian) (r r' : Receiver)
    → timeout_check_server host r ≡ some r'
    → SameIds r.turn.request r'.turn.request
unfolding timeout_check_server
timeout_check_server-SameIds host r r' =
    with_turn-SameIds r r' (on_server_time_out host r.turn) (on_server_time_out-SameIds host r.turn)

-- The requests of a list have different addresses and ids, and none is to be cleaned up.
abbrev pub IsOrderly : List (Cell Receiver) → Type 0
IsOrderly cells =
    Distinct cells
    × DistinctIds receivers cells
    × All (λ c. is_clean_up c.element.turn.request.procedure ≡ false) cells

module _ (host : Endian) (clock : ℕ → ℕ) (app : Ftp) (distinct : Distinct app.requests.request_list)
    (ids : DistinctIds receivers app.requests.request_list) where
  round_IsOrderly :
      (round : Round Receiver)
      → check_requests receivers
          (λ now. timeout_check_server host)
          app.transaction_inactivity_limit
          clock
          0
          app.buff
          app.requests.request_list
        ≡ some round
      → IsOrderly round.kept
  round_IsOrderly round e =
      let (active, _, apart) =
        check_requests-kept receivers (λ a req. refl) (λ now. timeout_check_server host)
          app.transaction_inactivity_limit clock app.requests.request_list 0 app.buff round e in
      (
        apart distinct,
        check_requests-DistinctIds receivers (λ a req. refl) (λ now. timeout_check_server host)
            app.transaction_inactivity_limit clock (λ now. timeout_check_server-SameIds host)
            app.requests.request_list 0 app.buff round e ids,
        active,
      )

none_left :
    (cells : List (Cell Receiver))
    → (length cells == 0) ≡ true
    → All (λ c. is_clean_up c.element.turn.request.procedure ≡ false) cells
none_left [] h = tt
none_left (c ∷ cs) h = absurd (ground (arith, h))

-- The handler of a request's time-out returns.
pub timeout_check_server_returns :
    (host : Endian) (r : Receiver) → (r' : Receiver) × (timeout_check_server host r ≡ some r')
unfolding timeout_check_server
timeout_check_server_returns host r =
    let (t, e, _) =
      Returns-result (on_server_time_out host r.turn) (on_server_time_out-Follows host r.turn) in
    (record r { turn = t }, ap (with_turn r) e)

-- A server whose requests have different addresses and ids returns from a time-out; the requests that
-- stay in its list have these properties, and none of them is to be cleaned up.
pub on_time_out_callback_server-IsOrderly :
    (host : Endian) (clock : ℕ → ℕ) (app : Ftp)
    → Distinct app.requests.request_list
    → DistinctIds receivers app.requests.request_list
    → Returns
        (λ out. IsOrderly out.app.requests.request_list)
        (on_time_out_callback_server host clock app)
unfolding on_time_out_callback_server
on_time_out_callback_server-IsOrderly host clock app distinct ids =
    let P : Option TimedOut → Type 0 = Returns (λ out. IsOrderly out.app.requests.request_list) in
    let (round, e) =
      check_requests_returns receivers (λ a req. refl) (λ now. timeout_check_server host)
        app.transaction_inactivity_limit clock app.requests.request_list 0 app.buff
        (λ now. timeout_check_server_returns host) in
    if-cases P (length app.requests.request_list == 0)
      (λ h. (distinct, ids, none_left app.requests.request_list h))
      (λ h. rw (after_round, e) (round_IsOrderly host clock app distinct ids round e))
