-- ===== src/Saved.antt =====
-- filesystem_funcs.c: the missing offsets in the JSON file of a saved request. A text is the sequence of
-- its characters; `snprintf` with %d and `atol` are the C library's.
pub mod Decimal
pub mod Offsets
use ccsds_file_delivery_prot.Common.{
  ℕ, zero, suc, ◌+◌, ◌-◌, ◌*◌, ◌/◌, ◌%◌, ◌==◌, ltb, leb, if◌then◌else◌, Bool, true, false, not,
  Option, none, some, u32, List, [], ◌∷◌, ◌++◌, length, take,
}
use ccsds_file_delivery_prot.File.Missing.{Offset}

abbrev pub comma : ℕ
comma = 0x2c

abbrev pub minus : ℕ
minus = 0x2d

abbrev pub opening : ℕ
opening = 0x5b

abbrev pub closing : ℕ
closing = 0x5d

-- The digits of a number, ten at most.
abbrev pub digits : ℕ → ℕ → List ℕ
digits zero n = []
digits (suc k) n =
    let rest = digits k (n / 10) in
    if ltb n 10 then (0x30 + n) ∷ [] else rest ++ ((0x30 + n % 10) ∷ [])

-- What "%d" prints of 32 bits.
unfoldable pub print_d : ℕ → List ℕ
print_d n = if ltb n 0x8000_0000 then digits 10 n else minus ∷ digits 10 (0x1_0000_0000 - n)

-- The number that digits spell behind `n`.
abbrev pub value : ℕ → List ℕ → ℕ
value n [] = n
value n (c ∷ cs) = value (n * 10 + (c - 0x30)) cs

-- The 32 bits that are kept of what `atol` gives for digits with a sign or none.
unfoldable pub atol : List ℕ → ℕ
atol [] = 0
atol (c ∷ cs) =
    if c == minus then u32 (0x1_0000_0000 - u32 (value 0 cs)) else u32 (value 0 (c ∷ cs))

-- "%d,%d," for one offset.
unfoldable pub save_file_callback_json : Offset → List ℕ
save_file_callback_json o = print_d o.start ++ (comma ∷ print_d o.end) ++ (comma ∷ [])

abbrev pub save_offsets : List Offset → List ℕ
save_offsets [] = []
save_offsets (o ∷ os) = save_file_callback_json o ++ save_offsets os

-- The text before its last character.
abbrev pub before_last : List ℕ → List ℕ
before_last [] = []
before_last (c ∷ []) = []
before_last (c ∷ d ∷ cs) = c ∷ before_last (d ∷ cs)

-- The end of `add_file_json`, behind a text that was written before: "[", the offsets, and "],\n" over
-- the last character. The calls of the file system succeed.
unfoldable pub add_offsets : List ℕ → List Offset → List ℕ
add_offsets written offsets =
    before_last (written ++ (opening ∷ save_offsets offsets)) ++ (closing ∷ comma ∷ 0x0a ∷ [])

-- Whether the list was read, and the list. `none` is a number that is longer than its buffer of fifteen
-- characters.
abbrev pub Parsed : Type 0
Parsed = Option (Bool × List Offset)

abbrev pub buffer_size : ℕ
buffer_size = 15

-- What is done at a comma: the first one ends a start, the second one a range.
abbrev pub at_comma :
    Bool
    → (Option (List ℕ) → List Offset → Parsed)
    → Option (List ℕ)
    → List ℕ
    → List Offset
    → Parsed
at_comma memory rest none tmp offsets = rest (some tmp) offsets
at_comma memory rest (some start) tmp offsets =
    if not memory
    then some (false, offsets)
    else rest none (offsets ++ (record { start = atol start; end = atol tmp } ∷ []))

-- The loop over the characters, with the start that was read, if any, and the characters since the last
-- comma.
unfoldable pub parse_from : Bool → Option (List ℕ) → List ℕ → List Offset → List ℕ → Parsed
parse_from memory start tmp offsets [] = some (true, offsets)
parse_from memory start tmp offsets (c ∷ cs) =
    let at = at_comma memory (λ s os. parse_from memory s [] os cs) start tmp offsets in
    let more = parse_from memory start (tmp ++ (c ∷ [])) offsets cs in
    if leb buffer_size (length tmp) then none else if c == comma then at else more

-- `parse_json_missing_offset_list`: the last character becomes a comma, and the first one is skipped.
-- The string is a value of the JSON text; an empty one is written in front of.
abbrev pub parse_value : Bool → List Offset → List ℕ → Parsed
parse_value memory offsets [] = none
parse_value memory offsets (c ∷ cs) = parse_from memory none [] offsets cs

abbrev pub with_comma : List ℕ → List ℕ
with_comma [] = []
with_comma (c ∷ cs) = before_last (c ∷ cs) ++ (comma ∷ [])

unfoldable pub parse_json_missing_offset_list : Bool → List Offset → List ℕ → Parsed
parse_json_missing_offset_list memory offsets text =
    parse_value memory offsets (with_comma (take 10_000 text))
