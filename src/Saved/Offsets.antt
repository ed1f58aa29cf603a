-- ===== src/Saved/Offsets.antt =====
-- The missing offsets, saved and read again.
use ccsds_file_delivery_prot.Common.{
  ℕ, zero, suc, ◌+◌, ◌^◌, ◌≤◌, ◌<◌, ◌≡◌, ◌≢◌, refl, ap, sym, ◌∙◌, arith, ◌==◌, leb, true, false,
  Option, none, some, List, [], ◌∷◌, ◌++◌, length, length-append, take, All,
}
use mathlib.Core.List.{append_assoc, append-nil}
use ccsds_file_delivery_prot.File.Missing.{Offset}
use ccsds_file_delivery_prot.Saved.{
  comma, opening, closing, print_d, save_file_callback_json, save_offsets, before_last, add_offsets,
  Parsed, buffer_size, at_comma, parse_from, parse_value, with_comma,
  parse_json_missing_offset_list,
}
use ccsds_file_delivery_prot.Saved.Decimal.{print_d-IsShort, atol-print_d}

before_last-append : (xs : List ℕ) (y : ℕ) → before_last (xs ++ (y ∷ [])) ≡ xs
before_last-append [] y = refl
before_last-append (x ∷ []) y = refl
before_last-append (x ∷ z ∷ xs) y = ap (λ (l : List ℕ). x ∷ l) (before_last-append (z ∷ xs) y)

-- Characters that are no comma are collected up to the next comma.
parse_from_word :
    (start : Option (List ℕ)) (tmp word rest : List ℕ) (offsets : List Offset)
    → All (λ c. c ≢ comma) word
    → length tmp + length word < buffer_size
    → parse_from true start tmp offsets (word ++ (comma ∷ rest))
      ≡ at_comma true (λ s os. parse_from true s [] os rest) start (tmp ++ word) offsets
unfolding parse_from
parse_from_word start tmp [] rest offsets all short =
    let fits : leb buffer_size (length tmp) ≡ false = ground (arith, short) in
    rw fits (
      ap (λ (t : List ℕ). at_comma true (λ s os. parse_from true s [] os rest) start t offsets)
        (sym (append-nil tmp)))
parse_from_word start tmp (c ∷ word) rest offsets (here, all) short =
    let fits : leb buffer_size (length tmp) ≡ false = ground (arith, short) in
    let other : (c == comma) ≡ false = ground (arith, here) in
    let longer = length-append tmp (c ∷ []) in
    rw (fits, other)
      (parse_from_word start (tmp ++ (c ∷ [])) word rest offsets all (omega (arith, short, longer))
        ∙ ap (λ (t : List ℕ). at_comma true (λ s os. parse_from true s [] os rest) start t offsets)
            (append_assoc tmp (c ∷ []) word))

-- One offset is read.
parse_from_offset :
    (o : Offset) (rest : List ℕ) (offsets : List Offset)
    → o.start < 2 ^ 32
    → o.end < 2 ^ 32
    → parse_from true none [] offsets (save_file_callback_json o ++ rest)
      ≡ parse_from true none [] (offsets ++ (o ∷ [])) rest
unfolding save_file_callback_json
parse_from_offset o rest offsets lo hi =
    let (short_start, words_start) = print_d-IsShort o.start in
    let (short_end, words_end) = print_d-IsShort o.end in
    let parse : List ℕ → Parsed = parse_from true none [] offsets in
    let start = print_d o.start in
    let end = print_d o.end in
    ap parse (
      append_assoc (start ++ (comma ∷ end)) (comma ∷ []) rest
      ∙ append_assoc start (comma ∷ end) (comma ∷ rest))
    ∙ parse_from_word none [] start (end ++ (comma ∷ rest)) offsets words_start
        (omega (arith, short_start))
    ∙ parse_from_word (some start) [] end rest offsets words_end (omega (arith, short_end))
    ∙ ap (λ (p : Offset). parse_from true none [] (offsets ++ (p ∷ [])) rest)
        (λ i. record { start = atol-print_d o.start lo i; end = atol-print_d o.end hi i })

-- The offsets have 32 bits.
abbrev pub Fits : Offset → Type 0
Fits o = (o.start < 2 ^ 32) × (o.end < 2 ^ 32)

parse_from-save_offsets :
    (os offsets : List Offset)
    → All Fits os
    → parse_from true none [] offsets (save_offsets os) ≡ some (true, offsets ++ os)
unfolding parse_from
parse_from-save_offsets [] offsets fits =
    ap (λ (l : List Offset). some (true, l)) (sym (append-nil offsets))
parse_from-save_offsets (o ∷ os) offsets ((lo, hi), fits) =
    parse_from_offset o (save_offsets os) offsets lo hi
    ∙ parse_from-save_offsets os (offsets ++ (o ∷ [])) fits
    ∙ ap (λ (l : List Offset). some (true, l)) (append_assoc offsets (o ∷ []) os)

-- The text of some offsets ends with a comma.
save_offsets_ends :
    (o : Offset) (os : List Offset)
    → (init : List ℕ) × (save_offsets (o ∷ os) ≡ init ++ (comma ∷ []))
unfolding save_file_callback_json
save_offsets_ends o [] = (print_d o.start ++ (comma ∷ print_d o.end), append-nil _)
save_offsets_ends o (p ∷ ps) =
    let (init, e) = save_offsets_ends p ps in
    (
      save_file_callback_json o ++ init,
      ap (λ (l : List ℕ). save_file_callback_json o ++ l) e
          ∙ sym (append_assoc (save_file_callback_json o) init (comma ∷ [])),
    )

take_all : (n : ℕ) (xs : List ℕ) → length xs ≤ n → take n xs ≡ xs
take_all zero [] fits = refl
take_all zero (x ∷ xs) fits = absurd (omega (arith, fits))
take_all (suc n) [] fits = refl
take_all (suc n) (x ∷ xs) fits = ap (λ (l : List ℕ). x ∷ l) (take_all n xs (omega (arith, fits)))

-- The value of the list in the text that is written for some offsets, from "[" to "]".
abbrev pub value_of : List Offset → List ℕ
value_of offsets = before_last (opening ∷ save_offsets offsets) ++ (closing ∷ [])

-- A list of missing offsets of 32 bits that is not empty is written behind what is there as a value
-- between brackets, with a comma and a line's end, and reading that value of at most 10000 characters
-- gives the list back. There is memory for the offsets.
pub parse-add_offsets :
    (written : List ℕ) (o : Offset) (os : List Offset)
    → All Fits (o ∷ os)
    → length (value_of (o ∷ os)) ≤ 10_000
    → (add_offsets written (o ∷ os) ≡ written ++ (value_of (o ∷ os) ++ (comma ∷ 0x0a ∷ [])))
      × (parse_json_missing_offset_list true [] (value_of (o ∷ os)) ≡ some (true, o ∷ os))
unfolding add_offsets parse_json_missing_offset_list
parse-add_offsets written o os fits short =
    let (init, ends) = save_offsets_ends o os in
    let opened : before_last (opening ∷ save_offsets (o ∷ os)) ≡ opening ∷ init =
      ap (λ (l : List ℕ). before_last (opening ∷ l)) ends
      ∙ before_last-append (opening ∷ init) comma in
    let text : value_of (o ∷ os) ≡ (opening ∷ init) ++ (closing ∷ []) =
      ap (λ (l : List ℕ). l ++ (closing ∷ [])) opened in
    let over : before_last (written ++ (opening ∷ save_offsets (o ∷ os)))
        ≡ written ++ (opening ∷ init) =
      ap (λ (l : List ℕ). before_last (written ++ (opening ∷ l))) ends
      ∙ ap before_last (sym (append_assoc written (opening ∷ init) (comma ∷ [])))
      ∙ before_last-append (written ++ (opening ∷ init)) comma in
    let tail : List ℕ = comma ∷ 0x0a ∷ [] in
    (
      ap (λ (l : List ℕ). l ++ (closing ∷ tail)) over
          ∙ append_assoc written (opening ∷ init) (closing ∷ tail)
          ∙ ap (λ (l : List ℕ). written ++ l)
              (sym (append_assoc (opening ∷ init) (closing ∷ []) tail)
                ∙ ap (λ (l : List ℕ). l ++ tail) (sym text)),
      ap (λ (l : List ℕ). parse_value true [] (with_comma l)) (take_all 10_000 _ short ∙ text)
          ∙ ap (λ (l : List ℕ). parse_value true [] (l ++ (comma ∷ [])))
              (before_last-append (opening ∷ init) closing)
          ∙ ap (λ (l : List ℕ). parse_from true none [] [] l) (sym ends)
          ∙ parse_from-save_offsets (o ∷ os) [] fits,
    )
