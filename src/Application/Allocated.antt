-- ===== src/Application/Allocated.antt =====
-- The requests that are allocated: those of the list, and those that found no place in it.
use mathlib.Core.List.{append_assoc}
use ccsds_file_delivery_prot.Common.{
  ℕ, ◌≡◌, ◌≢◌, refl, ap, sym, ◌∙◌, subst, arith, inl, inr, ◌⊎◌, some, List, [], ◌∷◌, ◌++◌, All,
  All-append,
}
use ccsds_file_delivery_prot.Application.{Cell, load, store}
use ccsds_file_delivery_prot.Application.Rounds.{IsFree, Distinct, load-IsFree, load_cases}

module _ {A : Type 0} where
  All-insert :
      (P : Cell A → Type 0) (xs ys : List (Cell A)) (c : Cell A)
      → All P (xs ++ ys)
      → P c
      → All P ((xs ++ (c ∷ [])) ++ ys)
  All-insert P [] ys c all here = (here, all)
  All-insert P (x ∷ xs) ys c (first, all) here = (first, All-insert P xs ys c all here)

  All-prefix : (P : Cell A → Type 0) (xs ys : List (Cell A)) → All P (xs ++ ys) → All P xs
  All-prefix P [] ys all = tt
  All-prefix P (x ∷ xs) ys (first, all) = (first, All-prefix P xs ys all)

  All-suffix : (P : Cell A → Type 0) (xs ys : List (Cell A)) → All P (xs ++ ys) → All P ys
  All-suffix P [] ys all = all
  All-suffix P (x ∷ xs) ys (first, all) = All-suffix P xs ys all

  pub Distinct-prefix : (xs ys : List (Cell A)) → Distinct (xs ++ ys) → Distinct xs
  Distinct-prefix [] ys distinct = tt
  Distinct-prefix (x ∷ xs) ys (first, distinct) =
      (All-prefix _ xs ys first, Distinct-prefix xs ys distinct)

  -- A new request, behind those of the list or behind all.
  pub Distinct-insert :
      (xs ys : List (Cell A)) (c : Cell A)
      → Distinct (xs ++ ys)
      → IsFree c.address (xs ++ ys)
      → Distinct ((xs ++ (c ∷ [])) ++ ys)
  Distinct-insert [] ys c distinct free = (free, distinct)
  Distinct-insert (x ∷ xs) ys c (first, distinct) (here, free) = (
    All-insert (λ e. e.address ≢ x.address) xs ys c first (λ e. here (sym e)),
    Distinct-insert xs ys c distinct free,
  )

  Distinct-append :
      (cells : List (Cell A)) (c : Cell A)
      → Distinct cells
      → IsFree c.address cells
      → Distinct (cells ++ (c ∷ []))
  Distinct-append [] c distinct free = (tt, tt)
  Distinct-append (d ∷ ds) c (first, distinct) (here, free) = (
    All-append (λ e. e.address ≢ d.address) ds c first (λ e. here (sym e)),
    Distinct-append ds c distinct free,
  )

  pub Distinct-behind :
      (xs ys : List (Cell A)) (c : Cell A)
      → Distinct (xs ++ ys)
      → IsFree c.address (xs ++ ys)
      → Distinct (xs ++ (ys ++ (c ∷ [])))
  Distinct-behind xs ys c distinct free =
      subst Distinct (append_assoc xs ys (c ∷ [])) (Distinct-append (xs ++ ys) c distinct free)

  pub load-insert :
      (xs ys : List (Cell A)) (c : Cell A)
      → IsFree c.address (xs ++ ys)
      → load c.address ((xs ++ (c ∷ [])) ++ ys) ≡ some c.element
  load-insert [] ys c free = ground arith
  load-insert (d ∷ ds) ys c (here, free) = ground (arith, here, load-insert ds ys c free)

  load-append :
      (cells : List (Cell A)) (c : Cell A)
      → IsFree c.address cells
      → load c.address (cells ++ (c ∷ [])) ≡ some c.element
  load-append [] c free = ground arith
  load-append (d ∷ ds) c (here, free) = ground (arith, here, load-append ds c free)

  pub load-behind :
      (xs ys : List (Cell A)) (c : Cell A)
      → IsFree c.address (xs ++ ys)
      → load c.address (xs ++ (ys ++ (c ∷ []))) ≡ some c.element
  load-behind xs ys c free =
      ap (λ (l : List (Cell A)). load c.address l) (sym (append_assoc xs ys (c ∷ [])))
      ∙ load-append (xs ++ ys) c free

  pub load-prefix :
      (q : ℕ) (xs ys : List (Cell A)) (a : A) → load q xs ≡ some a → load q (xs ++ ys) ≡ some a
  load-prefix q [] ys a e = absurd (cc e)
  load-prefix q (d ∷ ds) ys a e = ground (arith, e, load-prefix q ds ys a)

  pub load-suffix : (q : ℕ) (xs ys : List (Cell A)) → IsFree q xs → load q (xs ++ ys) ≡ load q ys
  load-suffix q [] ys free = refl
  load-suffix q (d ∷ ds) ys (here, free) = ground (arith, here, load-suffix q ds ys free)

  -- What is allocated is in the list, or away from it.
  pub load-append_cases :
      (q : ℕ) (xs ys : List (Cell A)) (a : A)
      → load q (xs ++ ys) ≡ some a
      → (load q xs ≡ some a) ⊎ IsFree q xs
  load-append_cases q [] ys a e = inr tt
  load-append_cases q (d ∷ ds) ys a e = elim (load_cases q d (ds ++ ys) a e) [
    | inl (at, same) ↦ inl (ground (arith, at, same))
    | inr (away, there) ↦ elim (load-append_cases q ds ys a there) [
      | inl inside ↦ inl (ground (arith, away, inside))
      | inr free ↦ inr (away, free)
    ]
  ]

  load_other-insert :
      (q : ℕ) (xs ys : List (Cell A)) (c : Cell A)
      → c.address ≢ q
      → load q ((xs ++ (c ∷ [])) ++ ys) ≡ load q (xs ++ ys)
  load_other-insert q [] ys c other = ground (arith, other)
  load_other-insert q (d ∷ ds) ys c other = ground (arith, load_other-insert q ds ys c other)

  other_address :
      (q : ℕ) (cells : List (Cell A)) (c : Cell A) (a : A)
      → IsFree c.address cells
      → load q cells ≡ some a
      → c.address ≢ q
  other_address q cells c a free e same =
      cc (sym e ∙ ap (λ (p : ℕ). load p cells) (sym same) ∙ load-IsFree c.address cells free)

  -- A new request does not hide those that were there.
  pub load_in_list :
      (q : ℕ) (xs ys : List (Cell A)) (c : Cell A) (a : A)
      → IsFree c.address (xs ++ ys)
      → load q (xs ++ ys) ≡ some a
      → load q ((xs ++ (c ∷ [])) ++ ys) ≡ some a
  load_in_list q xs ys c a free e =
      load_other-insert q xs ys c (other_address q (xs ++ ys) c a free e) ∙ e

  pub load_behind_list :
      (q : ℕ) (xs ys : List (Cell A)) (c : Cell A) (a : A)
      → load q (xs ++ ys) ≡ some a
      → load q (xs ++ (ys ++ (c ∷ []))) ≡ some a
  load_behind_list q xs ys c a e =
      ap (λ (l : List (Cell A)). load q l) (sym (append_assoc xs ys (c ∷ [])))
      ∙ load-prefix q (xs ++ ys) (c ∷ []) a e

  pub store-append :
      (p : ℕ) (a : A) (xs ys : List (Cell A)) → store p a (xs ++ ys) ≡ store p a xs ++ store p a ys
  store-append p a [] ys = refl
  store-append p a (d ∷ ds) ys = ground (arith, store-append p a ds ys)

  -- A request of the list has another address than those outside.
  pub IsFree-outside :
      (p : ℕ) (xs ys : List (Cell A)) (a : A)
      → Distinct (xs ++ ys)
      → load p xs ≡ some a
      → IsFree p ys
  IsFree-outside p [] ys a distinct e = absurd (cc e)
  IsFree-outside p (d ∷ ds) ys a (first, distinct) e = elim (load_cases p d ds a e) [
    | inl (at, same) ↦ All-suffix _ ds ys (subst (λ (q : ℕ). IsFree q (ds ++ ys)) at first)
    | inr (away, there) ↦ IsFree-outside p ds ys a distinct there
  ]
