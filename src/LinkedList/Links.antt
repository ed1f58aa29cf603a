-- ===== src/LinkedList/Links.antt =====
-- Lists of nodes in the heap: each one linked to the one before it and the one behind it.
use ccsds_file_delivery_prot.Common.{ℕ, ◌≡◌, ◌≢◌, sym, ◌∙◌, some, List, [], ◌∷◌, ◌++◌}
use ccsds_file_delivery_prot.LinkedList.{Ptr, null, Node, Heap}

-- A node's address, and what it holds for the program.
pub record Cell : Type 0 where
  pub place : Ptr
  pub id : ℕ
  pub element : Ptr

abbrev pub linked : Cell → Ptr → Ptr → Node
linked c next prev = record { id = c.id; element = c.element; next = next; prev = prev }

abbrev pub first_place : List Cell → Ptr → Ptr
first_place [] next = next
first_place (c ∷ cs) next = c.place

abbrev pub last_place : Ptr → List Cell → Ptr
last_place prev [] = prev
last_place prev (c ∷ cs) = last_place c.place cs

-- The nodes `cs` are linked, between the addresses `prev` and `next`.
abbrev pub Links : Heap → Ptr → List Cell → Ptr → Type 0
Links h prev [] next = Unit {0}
Links h prev (c ∷ cs) next =
    (h.cell c.place ≡ some (linked c (first_place cs next) prev)) × Links h c.place cs next

abbrev pub Away : Ptr → List Cell → Type 0
Away a [] = Unit {0}
Away a (c ∷ cs) = (c.place ≢ a) × Away a cs

-- No address twice, and none of them NULL.
abbrev pub Apart : List Cell → Type 0
Apart [] = Unit {0}
Apart (c ∷ cs) = (c.place ≢ null) × Away c.place cs × Apart cs

-- What `h'` holds at each node of `cs`, `h` holds too.
abbrev pub SameAt : Heap → Heap → List Cell → Type 0
SameAt h h' [] = Unit {0}
SameAt h h' (c ∷ cs) = (h'.cell c.place ≡ h.cell c.place) × SameAt h h' cs

pub Links-frame :
    (h h' : Heap) (prev : Ptr) (cs : List Cell) (next : Ptr)
    → SameAt h h' cs
    → Links h prev cs next
    → Links h' prev cs next
Links-frame h h' prev [] next s l = tt
Links-frame h h' prev (c ∷ cs) next (e, s) (l, ls) = (e ∙ l, Links-frame h h' c.place cs next s ls)

-- A heap that differs at three addresses at most.
pub SameAt-Away :
    (h h' : Heap) (a b c : Ptr) (cs : List Cell)
    → ((q : Ptr) → q ≢ a → q ≢ b → q ≢ c → h'.cell q ≡ h.cell q)
    → Away a cs
    → Away b cs
    → Away c cs
    → SameAt h h' cs
SameAt-Away h h' a b c [] same x y z = tt
SameAt-Away h h' a b c (d ∷ ds) same (x, xs) (y, ys) (z, zs) =
    (same d.place x y z, SameAt-Away h h' a b c ds same xs ys zs)

pub Links-append :
    (h : Heap) (prev : Ptr) (xs ys : List Cell) (next : Ptr)
    → Links h prev xs (first_place ys next)
    → Links h (last_place prev xs) ys next
    → Links h prev (xs ++ ys) next
Links-append h prev [] ys next l m = m
Links-append h prev (x ∷ []) ys next (l, _) m = (l, m)
Links-append h prev (x ∷ y ∷ xs) ys next (l, ls) m =
    (l, Links-append h x.place (y ∷ xs) ys next ls m)

pub Links-front :
    (h : Heap) (prev : Ptr) (xs ys : List Cell) (next : Ptr)
    → Links h prev (xs ++ ys) next
    → Links h prev xs (first_place ys next)
Links-front h prev [] ys next l = tt
Links-front h prev (x ∷ []) ys next (l, _) = (l, tt)
Links-front h prev (x ∷ y ∷ xs) ys next (l, ls) = (l, Links-front h x.place (y ∷ xs) ys next ls)

pub Links-back :
    (h : Heap) (prev : Ptr) (xs ys : List Cell) (next : Ptr)
    → Links h prev (xs ++ ys) next
    → Links h (last_place prev xs) ys next
Links-back h prev [] ys next l = l
Links-back h prev (x ∷ xs) ys next (_, ls) = Links-back h x.place xs ys next ls

pub Away-append : (a : Ptr) (xs ys : List Cell) → Away a xs → Away a ys → Away a (xs ++ ys)
Away-append a [] ys l m = m
Away-append a (x ∷ xs) ys (l, ls) m = (l, Away-append a xs ys ls m)

pub Away-front : (a : Ptr) (xs ys : List Cell) → Away a (xs ++ ys) → Away a xs
Away-front a [] ys l = tt
Away-front a (x ∷ xs) ys (l, ls) = (l, Away-front a xs ys ls)

pub Away-back : (a : Ptr) (xs ys : List Cell) → Away a (xs ++ ys) → Away a ys
Away-back a [] ys l = l
Away-back a (x ∷ xs) ys (_, ls) = Away-back a xs ys ls

-- Every node of `xs` is away from those of `ys`.
abbrev pub Distinct : List Cell → List Cell → Type 0
Distinct [] ys = Unit {0}
Distinct (x ∷ xs) ys = Away x.place ys × Distinct xs ys

pub Apart-append : (xs ys : List Cell) → Apart xs → Apart ys → Distinct xs ys → Apart (xs ++ ys)
Apart-append [] ys a b d = b
Apart-append (x ∷ xs) ys (n, a, as') b (d, ds) =
    (n, Away-append x.place xs ys a d, Apart-append xs ys as' b ds)

pub Apart-front : (xs ys : List Cell) → Apart (xs ++ ys) → Apart xs
Apart-front [] ys a = tt
Apart-front (x ∷ xs) ys (n, a, rest) = (n, Away-front x.place xs ys a, Apart-front xs ys rest)

pub Apart-back : (xs ys : List Cell) → Apart (xs ++ ys) → Apart ys
Apart-back [] ys a = a
Apart-back (x ∷ xs) ys (_, _, rest) = Apart-back xs ys rest

pub Apart-Distinct : (xs ys : List Cell) → Apart (xs ++ ys) → Distinct xs ys
Apart-Distinct [] ys a = tt
Apart-Distinct (x ∷ xs) ys (_, a, rest) = (Away-back x.place xs ys a, Apart-Distinct xs ys rest)

-- A node of `ys` is away from those of `xs`.
pub Distinct-head : (xs ys : List Cell) (y : Cell) → Distinct xs (y ∷ ys) → Away y.place xs
Distinct-head [] ys y d = tt
Distinct-head (x ∷ xs) ys y ((ne, _), ds) = ((λ e. ne (sym e)), Distinct-head xs ys y ds)

pub Distinct-tail : (xs ys : List Cell) (y : Cell) → Distinct xs (y ∷ ys) → Distinct xs ys
Distinct-tail [] ys y d = tt
Distinct-tail (x ∷ xs) ys y ((_, a), ds) = (a, Distinct-tail xs ys y ds)

pub Distinct-cons :
    (xs ys : List Cell) (y : Cell) → Away y.place xs → Distinct xs ys → Distinct xs (y ∷ ys)
Distinct-cons [] ys y a d = tt
Distinct-cons (x ∷ xs) ys y (ne, a) (d, ds) = (((λ e. ne (sym e)), d), Distinct-cons xs ys y a ds)
