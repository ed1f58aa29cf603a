-- ===== src/Clock/Rate.antt =====
-- How often a time-out of app_control.c comes.
use native.Mathlib.Nat.{add-mul}
use ccsds_file_delivery_prot.Common.{
  ℕ, ◌+◌, ◌*◌, ◌≤◌, ◌<◌, ◌^◌, ◌≡◌, arith, List, [], ◌∷◌, true, false, leb, Bool-cases, inl, inr,
}
use ccsds_file_delivery_prot.Clock.{check_timeout, check_timeouts}

-- Readings of a clock that does not go back, from `now` on and below `limit`.
abbrev pub IsClock : ℕ → ℕ → List ℕ → Type 0
IsClock now limit [] = Unit {0}
IsClock now limit (t ∷ ts) = (now ≤ t) × (t < limit) × IsClock t limit ts

abbrev pub last_reading : ℕ → List ℕ → ℕ
last_reading now [] = now
last_reading now (t ∷ ts) = last_reading t ts

module _ (timeout : ℕ) where
  check_passed :
      (now prev : ℕ)
      → now < 2 ^ 31
      → prev ≤ now
      → prev + timeout < 2 ^ 31
      → prev + timeout ≤ now
      → check_timeout now prev timeout ≡ (true, now)
  unfolding check_timeout
  check_passed now prev small before fits passed = ground arith

  check_waiting :
      (now prev : ℕ)
      → now < 2 ^ 31
      → prev ≤ now
      → prev + timeout < 2 ^ 31
      → now < prev + timeout
      → check_timeout now prev timeout ≡ (false, prev)
  unfolding check_timeout
  check_waiting now prev small before fits waiting = ground arith

  once_more :
      (prev t times last : ℕ)
      → prev + timeout ≤ t
      → t + times * timeout ≤ last
      → prev + (times + 1) * timeout ≤ last
  once_more prev t times last passed room = omega (arith, passed, room, add-mul times 1 timeout)

  -- Between the time that is kept first and the one that is kept last there is room for the time-out as
  -- often as it came, by a clock that does not go back, starts no earlier than the first time, and
  -- stays below 2 ^ 31 less the time-out; and the last time is no later than the last reading.
  pub check_timeouts-le :
      (ts : List ℕ) (now prev limit : ℕ)
      → prev ≤ now
      → now < limit
      → IsClock now limit ts
      → limit + timeout ≤ 2 ^ 31
      → (let (last, times) = check_timeouts ts prev timeout in
          (prev + times * timeout ≤ last) × (last ≤ last_reading now ts))
  unfolding check_timeouts
  check_timeouts-le [] now prev limit before below clock fits = (omega arith, before)
  check_timeouts-le (t ∷ ts) now prev limit before below (later, small, clock) fits =
      elim (Bool-cases (leb (prev + timeout) t)) [
        | inl e ↦
            let passed : prev + timeout ≤ t = ground (arith, e) in
            let (room, end) = check_timeouts-le ts t t limit (omega arith) small clock fits in
            rw (check_passed t prev (omega arith) (omega arith) (omega arith) passed) (
              once_more prev t (check_timeouts ts t timeout).1 (check_timeouts ts t timeout).0
                  passed room,
              end,
            )
        | inr e ↦
            let waiting : t < prev + timeout = ground (arith, e) in
            let (room, end) = check_timeouts-le ts t prev limit (omega arith) small clock fits in
            rw (check_waiting t prev (omega arith) (omega arith) (omega arith) waiting) (room, end)
      ]
