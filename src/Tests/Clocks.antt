-- ===== src/Tests/Clocks.antt =====
-- The theorem on time-outs, used on an example.
use ccsds_file_delivery_prot.Common.{ℕ, ◌+◌, ◌*◌, ◌≤◌, arith, List, [], ◌∷◌}
use ccsds_file_delivery_prot.Clock.{check_timeouts}
use ccsds_file_delivery_prot.Clock.Rate.{last_reading, check_timeouts-le}

-- A time-out of ten seconds, and a clock from 100 on.
abbrev readings : List ℕ
readings = 105 ∷ 111 ∷ 111 ∷ 130 ∷ []

check_timeouts-le_example :
    (let (last, times) = check_timeouts readings 100 10 in
      (100 + times * 10 ≤ last) × (last ≤ last_reading 100 readings))
check_timeouts-le_example =
    check_timeouts-le 10 readings 100 100 1_000 (omega arith) (omega arith)
      (
        omega arith,
        omega arith,
        (omega arith, omega arith, (omega arith, omega arith, (omega arith, omega arith, tt))),
      )
      (omega arith)
