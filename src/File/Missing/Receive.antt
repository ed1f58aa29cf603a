-- ===== src/File/Missing/Receive.antt =====
-- `receive_offset` (filesystem_funcs.c) and the bytes that are missing.
use ccsds_file_delivery_prot.Common.{
  ℕ, ◌≤◌, ◌<◌, ◌≡◌, refl, ◌⊎◌, inl, inr, arith, Bool, true, false, not, ◌&&◌, ltb, leb, List, [],
  ◌∷◌, ◌++◌, some, Option-cases, All, subst,
}
use ccsds_file_delivery_prot.File.Missing.{
  Offset, Node, find_node, find_nak, Received, refused, taken, Alloc, receive_at, receive_offset,
}
use ccsds_file_delivery_prot.File.Missing.Ranges.{
  within, missing, Rising, last_end, missing-append, Rising-append, Rising-mono, Rising-front,
  Rising-back, missing_bounds, find_node-some, find_node-none,
}

abbrev pub received_bytes : ℕ → ℕ → ℕ → Bool
received_bytes s e b = leb s b && ltb b e

abbrev pub has_memory : Alloc
has_memory = record { offset = true; node = true }

-- One range replaced by others inside it.
splice-Rising :
    (lo : ℕ) (before mid after : List Offset) (o : Offset)
    → Rising lo (before ++ (o ∷ after))
    → Rising (last_end lo before) mid
    → last_end (last_end lo before) mid ≤ o.end
    → Rising lo (before ++ (mid ++ after))
splice-Rising lo before mid after o r m le =
    let (_, _, back) = Rising-back lo before (o ∷ after) r in
    Rising-append lo before (mid ++ after) (Rising-front lo before (o ∷ after) r)
      (Rising-append (last_end lo before) mid after m (Rising-mono after le back))

module _ (new : Offset) (ordered : new.start ≤ new.end) (node : Node Offset) (lo : ℕ)
    (rising : Rising lo (node.before ++ (node.element ∷ node.after)))
    (found : find_nak node.element new ≡ true) where
  open node use {before, element, after}

  found_inside : (element.start ≤ new.start) × (new.end ≤ element.end)
  unfolding find_nak
  found_inside = ground arith

  element_Rising : (last_end lo before ≤ element.start) × (element.start < element.end)
  element_Rising = let (a, b, _) = Rising-back lo before (element ∷ after) rising in (a, b)

  before_missing : (b : ℕ) → missing before b ≡ true → b < element.start
  before_missing b h = omega (
    arith,
    missing_bounds lo before b (Rising-front lo before (element ∷ after) rising) h,
    element_Rising,
  )

  after_missing : (b : ℕ) → missing after b ≡ true → element.end ≤ b
  after_missing b h =
      let (_, _, back) = Rising-back lo before (element ∷ after) rising in
      omega (arith, missing_bounds element.end after b back h)

  receive_at-taken : (receive_at has_memory new node).0 ≡ taken
  unfolding receive_at
  receive_at-taken = ground arith

  receive_at-missing :
      (b : ℕ)
      → missing (receive_at has_memory new node).1 b
        ≡ missing (before ++ (element ∷ after)) b && not (received_bytes new.start new.end b)
  unfolding receive_at missing
  receive_at-missing b = ground (
    arith,
    found_inside,
    element_Rising,
    before_missing b,
    after_missing b,
    missing-append before after b,
    missing-append before (element ∷ after) b,
    missing-append before (record element { start = new.end } ∷ after) b,
    missing-append before (record element { end = new.start } ∷ after) b,
    missing-append before
        (record element { end = new.start } ∷ record element { start = new.end } ∷ after) b,
  )

  receive_at-Rising : Rising lo (receive_at has_memory new node).1
  unfolding receive_at
  receive_at-Rising =
      let (low, _) = element_Rising in
      ground (
        arith,
        found_inside,
        element_Rising,
        splice-Rising lo before [] after element rising tt (omega (arith, element_Rising)),
        splice-Rising lo before (record element { start = new.end } ∷ []) after element rising,
        splice-Rising lo before (record element { end = new.start } ∷ []) after element rising,
        splice-Rising lo before
            (record element { end = new.start } ∷ record element { start = new.end } ∷ []) after
            element rising,
      )

-- The segment from `s` up to `e` lies in a range.
abbrev pub Holds : ℕ → ℕ → Offset → Type 0
Holds s e o = (o.start ≤ s) × (e ≤ o.end)

-- A segment is taken out of the missing bytes, all of which it was.
abbrev pub Takes : List Offset → ℕ → ℕ → Received × List Offset → Type 0
Takes xs s e r =
    (r.0 ≡ taken)
    × ((b : ℕ) → missing r.1 b ≡ missing xs b && not (received_bytes s e b))
    × ((b : ℕ) → received_bytes s e b && not (missing xs b) ≡ false)

-- A segment that lies in no range changes nothing.
abbrev pub Refuses : List Offset → ℕ → ℕ → Received × List Offset → Type 0
Refuses xs s e r = (r.0 ≡ refused) × (r.1 ≡ xs) × All (λ o. ¬ Holds s e o) xs

not_held :
    (s e : ℕ) (xs : List Offset)
    → s ≤ e
    → All (λ o. find_nak o (record { start = s; end = e }) ≡ false) xs
    → All (λ o. ¬ Holds s e o) xs
unfolding find_nak
not_held s e [] h none_found = tt
not_held s e (o ∷ os) h (f, fs) = ((λ held. ground arith), not_held s e os h fs)

-- The byte of a found range are missing.
held_missing :
    (before after : List Offset) (o : Offset) (b : ℕ)
    → within o b ≡ true
    → missing (before ++ (o ∷ after)) b ≡ true
unfolding missing
held_missing before after o b h = ground (arith, missing-append before (o ∷ after) b)

module _ (lo s e : ℕ) (xs : List Offset) (ordered : s ≤ e) (rising : Rising lo xs) where
  abbrev segment : Offset
  segment = record { start = s; end = e }

  abbrev result : Received × List Offset
  result = receive_offset has_memory xs s e

  receive_found :
      (n : Node Offset)
      → find_node (λ o. find_nak o segment) xs ≡ some n
      → Rising lo result.1 × Takes xs s e result
  unfolding receive_offset
  receive_found n f =
      let (split, test) = find_node-some (λ o. find_nak o segment) xs n f in
      let r : Rising lo (n.before ++ (n.element ∷ n.after)) = subst (Rising lo) split rising in
      let inside = found_inside segment ordered n lo r test in
      rw (f, receive_offset)
        (
          receive_at-Rising segment ordered n lo r test,
          (
            receive_at-taken segment ordered n lo r test,
            (λ b. rw split (receive_at-missing segment ordered n lo r test b)),
            (λ b. rw split (ground (arith, held_missing n.before n.after n.element b))),
          ),
        )

  -- With memory for a new node, on rising ranges, and for a segment that does not end before it
  -- starts, `receive_offset` keeps the ranges rising. Either it takes the segment, all of whose
  -- bytes were missing, out of the missing bytes, or the segment lies in no range and nothing
  -- changes.
  pub receive_offset_cases : Rising lo result.1 × (Takes xs s e result ⊎ Refuses xs s e result)
  unfolding receive_offset
  receive_offset_cases = elim (Option-cases (find_node (λ o. find_nak o segment) xs)) [
    | inl f ↦
        rw (f, receive_offset)
          (
            rising,
            inr (
              refl,
              refl,
              not_held s e xs ordered (find_node-none (λ o. find_nak o segment) xs f),
            ),
          )
    | inr (n, f) ↦ let (r, t) = receive_found n f in (r, inl t)
  ]
