-- ===== src/Common/Words.antt =====
-- Machine words are native numbers: a conversion to a w-bit unsigned type is the remainder by
-- 2 ^ w. `bit_or` of fields that share no bit is a sum, at every width.
use Prim.Native.Nat.{ℕ, zero, suc, ◌+◌, ◌*◌, ◌/◌, ◌%◌, ◌^◌, ◌≤◌, ◌<◌}
use Prim.Native.Nat.{bit_or, max, digits, bit_or-bitwise, compare, Ordering}
use mathlib.Core.Bool.{Bool, true, false}
use mathlib.Core.Path.{◌≡◌, refl, ap, ◌∙◌}
use native.Mathlib.Nat.{pow-suc}
use native.Mathlib.Omega.{arith}

abbrev pub u8 : ℕ → ℕ
u8 x = x % 256

abbrev pub u16 : ℕ → ℕ
u16 x = x % 0x10000

abbrev pub u32 : ℕ → ℕ
u32 x = x % 0x1_0000_0000

abbrev pub u64 : ℕ → ℕ
u64 x = x % 0x1_0000_0000_0000_0000

-- The digit recursion that `bit_or` stands for, on any fuel that suffices.
abbrev or_digits : ℕ → ℕ → ℕ → ℕ
or_digits n a b = digits (λ y. y) max n a b

double_shift : (q k : ℕ) → q * 2 ^ suc k ≡ 2 * (q * 2 ^ k)
double_shift q k = omega (arith, ap (λ (t : ℕ). q * t) (pow-suc 2 k))

or_digits-eq-add : (n a k q r : ℕ) → a ≤ n → a ≡ q * 2 ^ k → r < 2 ^ k → or_digits n a r ≡ a + r
or_digits-eq-add zero zero k q r hn ha hr = omega arith
or_digits-eq-add zero (suc a) k q r hn ha hr = absurd (omega arith)
or_digits-eq-add (suc n) zero k q r hn ha hr = omega arith
or_digits-eq-add (suc n) (suc a) zero q r hn ha hr = omega (
  arith,
  or_digits-eq-add n (suc a / 2) zero (q / 2) (r / 2) (omega arith) (omega arith) (omega arith),
)
or_digits-eq-add (suc n) (suc a) (suc k) q r hn ha hr =
    let halves : r / 2 < 2 ^ k = omega (arith, pow-suc 2 k) in
    omega (
      arith,
      double_shift q k,
      or_digits-eq-add n (suc a / 2) k q (r / 2) (omega arith) (omega (arith, double_shift q k))
          halves,
    )

pub bit_or_fields : (k q r : ℕ) → r < 2 ^ k → bit_or (q * 2 ^ k) r ≡ q * 2 ^ k + r
bit_or_fields k q r h =
    bit_or-bitwise (q * 2 ^ k) r ∙ or_digits-eq-add _ _ k q r (omega arith) refl h

-- Two functions that agree at each byte by evaluation agree at each byte.
module _ (f g : ℕ → ℕ) where
  same_up_to : ℕ → Bool
  same_up_to zero = true
  same_up_to (suc n) =
      let rest = same_up_to n in elim (compare (f n) (g n)) [ Ordering.eq ↦ rest | _ ↦ false ]

  same_up_to_sound : (n : ℕ) → same_up_to n ≡ true → (x : ℕ) → x < n → f x ≡ g x
  unfolding same_up_to
  same_up_to_sound zero h x lt = absurd (omega arith)
  same_up_to_sound (suc n) h x lt = ground (arith, same_up_to_sound n (ground arith) x)

-- The lowest two bits set, the two top digits kept; the top nibble's bit 2 and the lowest bit set.
pub bit_or_three : (x : ℕ) → x < 256 → bit_or x 3 ≡ x / 4 * 4 + 3
unfolding same_up_to
bit_or_three = same_up_to_sound (λ x. bit_or x 3) (λ x. x / 4 * 4 + 3) 256 refl

pub bit_or_high : (x : ℕ) → x < 256 → bit_or x 0x40 ≡ x / 128 * 128 + 64 + x % 64
unfolding same_up_to
bit_or_high = same_up_to_sound (λ x. bit_or x 0x40) (λ x. x / 128 * 128 + 64 + x % 64) 256 refl

pub bit_or_one : (x : ℕ) → x < 256 → bit_or x 1 ≡ x / 2 * 2 + 1
unfolding same_up_to
bit_or_one = same_up_to_sound (λ x. bit_or x 1) (λ x. x / 2 * 2 + 1) 256 refl

pub bit_or_0x70 : (x : ℕ) → x < 256 → bit_or x 0x70 ≡ x / 128 * 128 + 112 + x % 16
unfolding same_up_to
bit_or_0x70 = same_up_to_sound (λ x. bit_or x 0x70) (λ x. x / 128 * 128 + 112 + x % 16) 256 refl
