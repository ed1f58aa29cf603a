-- ===== src/Tests/Saves.antt =====
-- Missing offsets that are saved and read again.
use ccsds_file_delivery_prot.Common.{◌≡◌, refl, true, some, [], ◌∷◌, ◌++◌, arith}
use ccsds_file_delivery_prot.File.Missing.{Offset}
use ccsds_file_delivery_prot.Saved.{
  add_offsets, parse_json_missing_offset_list, comma, print_d, save_file_callback_json,
}
use ccsds_file_delivery_prot.Saved.Offsets.{value_of, parse-add_offsets}

abbrev first : Offset
first = record { start = 0; end = 1_000 }

abbrev high : Offset
high = record { start = 3_000; end = 4_294_967_295 }

value_of_two : value_of (first ∷ high ∷ []) ≡ (
    0x5b ∷ 0x30 ∷ 0x2c ∷ 0x31 ∷ 0x30 ∷ 0x30 ∷ 0x30 ∷ 0x2c ∷ 0x33 ∷ 0x30 ∷ 0x30 ∷ 0x30 ∷ 0x2c ∷ 0x2d
    ∷ 0x31 ∷ 0x5d ∷ [])
unfolding print_d save_file_callback_json
value_of_two = refl

parse-add_offsets_example :
    (add_offsets (0x7b ∷ []) (first ∷ high ∷ [])
      ≡ (0x7b ∷ []) ++ (value_of (first ∷ high ∷ []) ++ (comma ∷ 0x0a ∷ [])))
    × (parse_json_missing_offset_list true [] (value_of (first ∷ high ∷ []))
        ≡ some (true, first ∷ high ∷ []))
unfolding print_d save_file_callback_json
parse-add_offsets_example =
    parse-add_offsets (0x7b ∷ []) first (high ∷ [])
      ((omega arith, omega arith), ((omega arith, omega arith), tt)) (omega arith)
