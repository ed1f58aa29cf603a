-- ===== src/Saved/Decimal.antt =====
-- Numbers that are printed with %d and read with `atol`.
use ccsds_file_delivery_prot.Common.{
  ℕ, zero, suc, ◌+◌, ◌-◌, ◌*◌, ◌/◌, ◌%◌, ◌^◌, ◌≤◌, ◌<◌, ◌≡◌, ◌≢◌, refl, ◌∙◌, arith, ◌==◌, ltb, List,
  [], ◌∷◌, ◌++◌, length, length-append, All, All-append, if-cases,
}
use ccsds_file_delivery_prot.Saved.{digits, value, print_d, atol, minus, comma}

abbrev power : ℕ → ℕ
power zero = 1
power (suc k) = 10 * power k

abbrev IsDigit : ℕ → Type 0
IsDigit c = (0x30 ≤ c) × (c < 0x3a)

value-append : (n c : ℕ) (cs : List ℕ) → value n (cs ++ (c ∷ [])) ≡ value n cs * 10 + (c - 0x30)
value-append n c [] = refl
value-append n c (d ∷ ds) = value-append (n * 10 + (d - 0x30)) c ds

value-digits : (k n : ℕ) → n < power k → value 0 (digits k n) ≡ n
value-digits zero n lt = omega (arith, lt)
value-digits (suc k) n lt =
    if-cases (λ (l : List ℕ). value 0 l ≡ n) (ltb n 10) (λ h. omega arith)
      (λ h.
        value-append 0 (0x30 + n % 10) (digits k (n / 10))
        ∙ omega (arith, value-digits k (n / 10) (omega (arith, lt))))

digits-IsDigit : (k n : ℕ) → All IsDigit (digits k n)
digits-IsDigit zero n = tt
digits-IsDigit (suc k) n =
    if-cases (All IsDigit) (ltb n 10) (λ h. (ground (arith, h), tt))
      (λ h. All-append IsDigit (digits k (n / 10)) _ (digits-IsDigit k (n / 10)) (omega arith))

digits-length : (k n : ℕ) → length (digits k n) ≤ k
digits-length zero n = omega arith
digits-length (suc k) n =
    if-cases (λ (l : List ℕ). length l ≤ suc k) (ltb n 10) (λ h. omega arith)
      (λ h.
        omega (
          arith,
          length-append (digits k (n / 10)) ((0x30 + n % 10) ∷ []),
          digits-length k (n / 10),
        ))

-- What is printed is short and has no comma.
pub print_d-IsShort : (n : ℕ) → (length (print_d n) ≤ 11) × All (λ c. c ≢ comma) (print_d n)
unfolding print_d
print_d-IsShort n =
    if-cases (λ (l : List ℕ). (length l ≤ 11) × All (λ c. c ≢ comma) l) (ltb n 0x8000_0000)
      (λ h. (omega (arith, digits-length 10 n), no_comma (digits 10 n) (digits-IsDigit 10 n)))
      (λ h. (
        omega (arith, digits-length 10 (0x1_0000_0000 - n)),
        (
          (λ e. absurd (omega (arith, e))),
          no_comma (digits 10 (0x1_0000_0000 - n)) (digits-IsDigit 10 (0x1_0000_0000 - n)),
        ),
      ))
  where
    no_comma : (cs : List ℕ) → All IsDigit cs → All (λ c. c ≢ comma) cs
    no_comma [] all = tt
    no_comma (c ∷ cs) ((lo, hi), all) = ((λ e. absurd (omega (arith, lo, e))), no_comma cs all)

atol_digits : (cs : List ℕ) → All IsDigit cs → value 0 cs < 2 ^ 32 → atol cs ≡ value 0 cs
unfolding atol
atol_digits [] all small = refl
atol_digits (c ∷ cs) ((lo, hi), all) small =
    if-cases (λ (x : ℕ). x ≡ value 0 (c ∷ cs)) (c == minus) (λ h. absurd (ground (arith, h, lo)))
      (λ h. omega (arith, small))

atol-minus :
    (cs : List ℕ) → value 0 cs < 2 ^ 32 → 0 < value 0 cs → atol (minus ∷ cs) + value 0 cs ≡ 2 ^ 32
unfolding atol
atol-minus cs small pos = omega (arith, small, pos)

-- Every number of 32 bits is read back from what is printed for it.
pub atol-print_d : (n : ℕ) → n < 2 ^ 32 → atol (print_d n) ≡ n
unfolding print_d
atol-print_d n fits =
    if-cases (λ (l : List ℕ). atol l ≡ n) (ltb n 0x8000_0000)
      (λ h.
        let exact = value-digits 10 n (omega (arith, fits)) in
        atol_digits (digits 10 n) (digits-IsDigit 10 n) (omega (arith, exact, fits)) ∙ exact)
      (λ h.
        let left = 0x1_0000_0000 - n in
        let high : 0x8000_0000 ≤ n = ground (arith, h) in
        let exact = value-digits 10 left (omega (arith, high)) in
        omega (
          arith,
          exact,
          fits,
          high,
          atol-minus (digits 10 left) (omega (arith, exact, high)) (omega (arith, exact, fits)),
        ))
