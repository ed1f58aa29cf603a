-- ===== src/File/Missing/Ranges.antt =====
-- The bytes that a list of ranges stands for, and lists of ranges that rise and do not overlap.
use ccsds_file_delivery_prot.Common.{
  ℕ, ◌≤◌, ◌<◌, ◌≡◌, refl, arith, Bool, true, false, ◌&&◌, ◌||◌, ltb, leb, List, [], ◌∷◌, ◌++◌, none,
  some, All,
}
use mathlib.Core.List.{append_assoc}
use ccsds_file_delivery_prot.File.Missing.{Offset, Node, find_node_from, find_node}

abbrev pub within : Offset → ℕ → Bool
within o b = leb o.start b && ltb b o.end

-- Whether byte `b` is missing.
unfoldable pub missing : List Offset → ℕ → Bool
missing [] b = false
missing (o ∷ os) b = within o b || missing os b

-- The ranges hold a byte each, start at `lo` or later, and follow one another.
abbrev pub Rising : ℕ → List Offset → Type 0
Rising lo [] = Unit {0}
Rising lo (o ∷ os) = (lo ≤ o.start) × (o.start < o.end) × Rising o.end os

-- Where the last range ends.
abbrev pub last_end : ℕ → List Offset → ℕ
last_end lo [] = lo
last_end lo (o ∷ os) = last_end o.end os

pub missing-append :
    (xs ys : List Offset) (b : ℕ) → missing (xs ++ ys) b ≡ missing xs b || missing ys b
unfolding missing
missing-append [] ys b = refl
missing-append (o ∷ os) ys b = ground (arith, missing-append os ys b)

pub Rising-mono : {lo hi : ℕ} (xs : List Offset) → lo ≤ hi → Rising hi xs → Rising lo xs
Rising-mono [] h r = tt
Rising-mono (o ∷ os) h (a, b, c) = (omega arith, b, c)

pub Rising-append :
    (lo : ℕ) (xs ys : List Offset)
    → Rising lo xs
    → Rising (last_end lo xs) ys
    → Rising lo (xs ++ ys)
Rising-append lo [] ys r s = s
Rising-append lo (o ∷ os) ys (a, b, c) s = (a, b, Rising-append o.end os ys c s)

pub Rising-front : (lo : ℕ) (xs ys : List Offset) → Rising lo (xs ++ ys) → Rising lo xs
Rising-front lo [] ys r = tt
Rising-front lo (o ∷ os) ys (a, b, c) = (a, b, Rising-front o.end os ys c)

pub Rising-back : (lo : ℕ) (xs ys : List Offset) → Rising lo (xs ++ ys) → Rising (last_end lo xs) ys
Rising-back lo [] ys r = r
Rising-back lo (o ∷ os) ys (a, b, c) = Rising-back o.end os ys c

pub last_end-le : (lo : ℕ) (xs : List Offset) → Rising lo xs → lo ≤ last_end lo xs
last_end-le lo [] r = omega arith
last_end-le lo (o ∷ os) (a, b, c) = omega (arith, last_end-le o.end os c)

-- A missing byte lies between the two ends.
pub missing_bounds :
    (lo : ℕ) (xs : List Offset) (b : ℕ)
    → Rising lo xs
    → missing xs b ≡ true
    → (lo ≤ b) × (b < last_end lo xs)
unfolding missing
missing_bounds lo [] b r e = cc
missing_bounds lo (o ∷ os) b (p, q, c) e =
    ground (arith, missing_bounds o.end os b c, last_end-le o.end os c)

-- A list with no range is one with no missing byte.
pub missing_none :
    (lo : ℕ) (xs : List Offset) → Rising lo xs → ((b : ℕ) → missing xs b ≡ false) → xs ≡ []
unfolding missing
missing_none lo [] r h = refl
missing_none lo (o ∷ os) (p, q, c) h = absurd (ground (arith, h o.start))

module _ {ℓ} {A : Type ℓ} (test : A → Bool) where
  -- A node that is found splits the list, and passes the test.
  find_node_from-some :
      (before xs : List A) (n : Node A)
      → find_node_from test before xs ≡ some n
      → (before ++ xs ≡ n.before ++ (n.element ∷ n.after)) × (test n.element ≡ true)
  unfolding find_node_from
  find_node_from-some before [] n e = absurd (ground arith)
  find_node_from-some before (x ∷ xs) n e =
      ground (arith, find_node_from-some (before ++ x ∷ []) xs n, append_assoc before (x ∷ []) xs)

  pub find_node-some :
      (xs : List A) (n : Node A)
      → find_node test xs ≡ some n
      → (xs ≡ n.before ++ (n.element ∷ n.after)) × (test n.element ≡ true)
  unfolding find_node
  find_node-some xs n e = find_node_from-some [] xs n e

  -- No node is found exactly when no element passes.
  find_node_from-none :
      (before xs : List A) → find_node_from test before xs ≡ none → All (λ x. test x ≡ false) xs
  unfolding find_node_from
  find_node_from-none before [] e = tt
  find_node_from-none before (x ∷ xs) e = ground (arith, find_node_from-none (before ++ x ∷ []) xs)

  pub find_node-none : (xs : List A) → find_node test xs ≡ none → All (λ x. test x ≡ false) xs
  unfolding find_node
  find_node-none xs e = find_node_from-none [] xs e
