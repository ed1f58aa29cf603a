-- ===== src/File/Missing/Transfer.antt =====
-- A whole transfer: segments that arrive one after the other, lost, repeated and in any order.
use ccsds_file_delivery_prot.Common.{
  ℕ, ◌≤◌, ◌<◌, ◌≡◌, refl, sym, ap, ◌∙◌, inl, inr, arith, Bool, true, false, not, ◌&&◌, List, [],
  ◌∷◌, All, if◌then◌else◌, ◌↔◌,
}
use ccsds_file_delivery_prot.File.Missing.{
  Offset, Received, no_memory, refused, taken, receive_offset,
}
use ccsds_file_delivery_prot.File.Missing.Ranges.{missing, Rising, missing_none}
use ccsds_file_delivery_prot.File.Missing.Receive.{has_memory, receive_offset_cases}

-- What `receive_offset` leaves after each segment in turn.
unfoldable pub receive_all : List Offset → List Offset → List Offset
receive_all xs [] = xs
receive_all xs (g ∷ gs) = receive_all (receive_offset has_memory xs g.start g.end).1 gs

abbrev is_taken : Received → Bool
is_taken taken = true
is_taken refused = false
is_taken no_memory = false

-- The segments that were taken.
unfoldable pub accepted : List Offset → List Offset → List Offset
accepted xs [] = []
accepted xs (g ∷ gs) =
    let r = receive_offset has_memory xs g.start g.end in
    let rest = accepted r.1 gs in if is_taken r.0 then g ∷ rest else rest

abbrev pub IsOrdered : Offset → Type 0
IsOrdered g = g.start ≤ g.end

-- After any segments, none of which ends before it starts, that are received with enough memory
-- on rising ranges, the ranges are rising, and the missing bytes are those missing before less
-- those of the accepted segments.
pub receive_all-missing :
    (lo : ℕ) (xs gs : List Offset)
    → Rising lo xs
    → All IsOrdered gs
    → Rising lo (receive_all xs gs)
      × ((b : ℕ) → missing (receive_all xs gs) b ≡ missing xs b && not (missing (accepted xs gs) b))
unfolding receive_all accepted missing
receive_all-missing lo xs [] r o = (r, λ b. ground arith)
receive_all-missing lo xs (g ∷ gs) r (o, os) =
    let (r', c) = receive_offset_cases lo g.start g.end xs o r in
    let (rising, ih) =
      receive_all-missing lo (receive_offset has_memory xs g.start g.end).1 gs r' os in
    (
      rising,
      λ b. elim c [
        | inl (t, e, _) ↦ ground (arith, t, e b, ih b)
        | inr (t, e, _) ↦ ground (arith, t, ap (λ (l : List Offset). missing l b) e, ih b)
      ],
    )

-- The list that `add_first_offset` makes for a file.
abbrev pub whole_file : ℕ → List Offset
whole_file size = record { start = 0; end = size } ∷ []

-- For a file of at least one byte, all of it missing at first, and any segments, none of which
-- ends before it starts, that are received with enough memory, the list of missing offsets is
-- empty exactly when no byte of the file lies outside the segments that were accepted.
pub receive_all_complete :
    (size : ℕ) (gs : List Offset)
    → 0 < size
    → All IsOrdered gs
    → (receive_all (whole_file size) gs ≡ []) ↔ (
        (b : ℕ)
        → missing (whole_file size) b && not (missing (accepted (whole_file size) gs) b) ≡ false)
receive_all_complete size gs pos ordered =
    let start : Rising 0 (whole_file size) = (omega arith, pos, tt) in
    let (rising, left) = receive_all-missing 0 (whole_file size) gs start ordered in
    (
      (λ empty b. sym (left b) ∙ ap (λ (l : List Offset). missing l b) empty ∙ nothing_missing b),
      (λ all. missing_none 0 _ rising (λ b. left b ∙ all b)),
    )
  where
    nothing_missing : (b : ℕ) → missing [] b ≡ false
    nothing_missing b = unfold missing in refl
