-- ===== src/Application/Rounds.antt =====
-- The rounds of app_control.c in which requests end: which stay in the list.
pub mod Ids
use ccsds_file_delivery_prot.Common.{
  ℕ, suc, ◌+◌, ◌/◌, ◌==◌, ◌⊎◌, ◌≡◌, ◌≢◌, refl, ap, sym, ◌∙◌, subst, arith, inl, inr, true, false,
  Option, none, some, List, [], ◌∷◌, ◌++◌, All, Bool-cases,
}
use ccsds_file_delivery_prot.Wire.{Buffer}
use ccsds_file_delivery_prot.Request.{Request, clean_up}
use ccsds_file_delivery_prot.Clock.{timeout, check_timeout}
use ccsds_file_delivery_prot.Application.{
  Cell, Access, Round, load, is_clean_up, remove_request_check, checked, handled, with_buff,
  check_requests,
}

-- The checks of a request's time-outs end it, or leave its procedure.
timeout_ends :
    (now later limit : ℕ) (req : Request)
    → req.procedure ≡ clean_up
    → (timeout now later limit req).1.procedure ≡ clean_up
unfolding timeout
timeout_ends now later limit req h =
    let (is_timeout, kept) = check_timeout now req.timeout_before_cancel limit in
    let (is_journal, kept') = check_timeout later req.timeout_before_journal (limit / 2) in
    ground (arith, h)

pub timeout_ids :
    (now later limit : ℕ) (req : Request)
    → (let req' = (timeout now later limit req).1 in
        (req'.dest_cfdp_id ≡ req.dest_cfdp_id)
        × (req'.transaction_sequence_number ≡ req.transaction_sequence_number))
unfolding timeout
timeout_ids now later limit req =
    let (is_timeout, kept) = check_timeout now req.timeout_before_cancel limit in
    let (is_journal, kept') = check_timeout later req.timeout_before_journal (limit / 2) in
    ground arith

-- No cell has the address.
abbrev pub IsFree : {A : Type 0} → ℕ → List (Cell A) → Type 0
IsFree p cells = All (λ c. c.address ≢ p) cells

pub load-IsFree :
    {A : Type 0} (p : ℕ) (cells : List (Cell A)) → IsFree p cells → load p cells ≡ none
load-IsFree p [] free = refl
load-IsFree p (c ∷ cs) (here, free) = ground (arith, here, load-IsFree p cs free)

pub load_cases :
    {A : Type 0} (p : ℕ) (c : Cell A) (cs : List (Cell A)) (a : A)
    → load p (c ∷ cs) ≡ some a
    → ((c.address ≡ p) × (c.element ≡ a)) ⊎ ((c.address ≢ p) × (load p cs ≡ some a))
load_cases p c cs a e = elim (Bool-cases (c.address == p)) [
  | inl h ↦ inl (ground (arith, h), ground (arith, h, e))
  | inr h ↦ inr ((λ same. absurd (ground (arith, h, same))), ground (arith, h, e))
]

-- The addresses of a list are different ones.
abbrev pub Distinct : {A : Type 0} → List (Cell A) → Type 0
Distinct [] = Unit {0}
Distinct (c ∷ cs) = IsFree c.address cs × Distinct cs

module _ {A : Type 0} (access : Access A)
    (law : (a : A) (req : Request) → access.request (access.with_request a req) ≡ req) where
  abbrev pub IsActive : Cell A → Type 0
  IsActive c = is_clean_up (access.request c.element).procedure ≡ false

  remove_request_check_cases :
      (c : Cell A) (rest : Round A)
      → ((is_clean_up (access.request c.element).procedure ≡ true)
          × ((remove_request_check access c rest).kept ≡ rest.kept))
        ⊎ (IsActive c × ((remove_request_check access c rest).kept ≡ c ∷ rest.kept))
  unfolding remove_request_check
  remove_request_check_cases c rest = ground arith

  handled_result :
      (o : Option A) (f : A → Option (Round A)) (round : Round A)
      → handled access o f ≡ some round
      → (a : A) × (o ≡ some a) × (f a ≡ some round)
  handled_result none f round e = absurd (cc e)
  handled_result (some a) f round e = (a, refl, e)

  checked_result :
      (c : Cell A) (a : A) (t : List Request × Request) (o : Option (Round A)) (round : Round A)
      → checked access c a t o ≡ some round
      → (rest : Round A) × (o ≡ some rest)
        × (remove_request_check access
              (record c { element = access.with_request a t.1 })
              (record rest { saved = t.0 ++ rest.saved })
            ≡ round)
  checked_result c a t none round e = absurd (cc e)
  checked_result c a t (some rest) round e = (rest, refl, cc e)

  module _ (handle : ℕ → A → Option A) (limit : ℕ) (clock : ℕ → ℕ) where
    abbrev pub run : ℕ → Buffer → List (Cell A) → Option (Round A)
    run = check_requests access handle limit clock

    -- The cell after its request was handled and its time-outs were checked.
    abbrev pub after : ℕ → Cell A → A → Cell A
    after n c a = record c {
      element =
          access.with_request a
            (timeout (clock (suc n)) (clock (n + 2)) limit (access.request a)).1;
    }

    -- A first request is handled, and stays or ends; the others follow.
    abbrev pub Step : ℕ → Buffer → Cell A → List (Cell A) → Round A → Type 0
    Step n m c cs round =
        (a : A) × (rest : Round A) × (handle (clock n) (with_buff access c.element m) ≡ some a)
        × (run (n + 3) (access.request a).buff cs ≡ some rest)
        × (((is_clean_up (access.request (after n c a).element).procedure ≡ true)
              × (round.kept ≡ rest.kept))
            ⊎ (IsActive (after n c a) × (round.kept ≡ after n c a ∷ rest.kept)))

    pub check_requests_step :
        (n : ℕ) (m : Buffer) (c : Cell A) (cs : List (Cell A)) (round : Round A)
        → run n m (c ∷ cs) ≡ some round
        → Step n m c cs round
    unfolding check_requests
    check_requests_step n m c cs round e =
        let go : A → Option (Round A) = λ a.
          checked access c a (timeout (clock (suc n)) (clock (n + 2)) limit (access.request a))
            (run (n + 3) (access.request a).buff cs) in
        let (a, h, e1) =
          handled_result (handle (clock n) (with_buff access c.element m)) go round e in
        let (rest, h', e2) =
          checked_result c a (timeout (clock (suc n)) (clock (n + 2)) limit (access.request a))
            (run (n + 3) (access.request a).buff cs) round e1 in
        (
          a,
          rest,
          h,
          h',
          subst
              (λ (kept : List (Cell A)).
                ((is_clean_up (access.request (after n c a).element).procedure ≡ true)
                  × (kept ≡ rest.kept))
                ⊎ (IsActive (after n c a) × (kept ≡ after n c a ∷ rest.kept)))
              (ap (λ (r : Round A). r.kept) e2)
              (remove_request_check_cases (after n c a) (record rest {
                saved =
                    (timeout (clock (suc n)) (clock (n + 2)) limit (access.request a)).0
                    ++ rest.saved;
              })),
        )

    abbrev Stays : List (Cell A) → List (Cell A) → Type 0
    Stays cells kept =
        All IsActive kept
        × ((p : ℕ) → IsFree p cells → IsFree p kept)
        × (Distinct cells → Distinct kept)

    -- The requests that stay are not to be cleaned up, and have addresses of the list.
    pub check_requests-kept :
        (cells : List (Cell A)) (n : ℕ) (m : Buffer) (round : Round A)
        → run n m cells ≡ some round
        → Stays cells round.kept
    unfolding check_requests
    check_requests-kept [] n m round e =
        let same : [] ≡ round.kept = cc e in
        subst (Stays []) same (tt, (λ p free. tt), (λ distinct. tt))
    check_requests-kept (c ∷ cs) n m round e =
        let (a, rest, h, h', cases) = check_requests_step n m c cs round e in
        let (active, free, distinct) =
          check_requests-kept cs (n + 3) (access.request a).buff rest h' in
        elim cases [
          | inl (ends, same) ↦ subst (Stays (c ∷ cs)) (sym same) (
            active,
            (λ p (here, free'). free p free'),
            (λ (first, distinct'). distinct distinct'),
          )
          | inr (stays, same) ↦ subst (Stays (c ∷ cs)) (sym same) (
            (stays, active),
            (λ p (here, free'). (here, free p free')),
            (λ (first, distinct'). (free c.address first, distinct distinct')),
          )
        ]

    handled_ends :
        (n : ℕ) (c : Cell A) (a : A)
        → (access.request a).procedure ≡ clean_up
        → is_clean_up (access.request (after n c a).element).procedure ≡ true
    handled_ends n c a h =
        ap (λ (req : Request). is_clean_up req.procedure) (law a _)
        ∙ ap is_clean_up (timeout_ends (clock (suc n)) (clock (n + 2)) limit (access.request a) h)

    -- A request that its handler ends is not among those that stay.
    pub check_requests-IsFree :
        (cells : List (Cell A)) (p n : ℕ) (a0 : A) (m : Buffer) (round : Round A)
        → Distinct cells
        → load p cells ≡ some a0
        → ((now : ℕ) (m : Buffer) (a : A)
            → handle now (with_buff access a0 m) ≡ some a
            → (access.request a).procedure ≡ clean_up)
        → run n m cells ≡ some round
        → IsFree p round.kept
    check_requests-IsFree [] p n a0 m round distinct here ends e = absurd (cc here)
    check_requests-IsFree (c ∷ cs) p n a0 m round (first, distinct) here ends e =
        let (a, rest, h, h', cases) = check_requests_step n m c cs round e in
        let (_, free, _) = check_requests-kept cs (n + 3) (access.request a).buff rest h' in
        elim (load_cases p c cs a0 here) [
          | inl (at, same) ↦
              let ended : is_clean_up (access.request (after n c a).element).procedure ≡ true =
                handled_ends n c a (
                  ends (clock n) m a
                    (ap (λ (x : A). handle (clock n) (with_buff access x m)) (sym same) ∙ h)) in
              elim cases [
                | inl (_, kept) ↦
                    subst (IsFree p) (sym kept)
                      (subst (λ (q : ℕ). IsFree q rest.kept) at (free c.address first))
                | inr (active, _) ↦ absurd (ground (arith, ended, active))
              ]
          | inr (away, there) ↦
              let ih =
                check_requests-IsFree cs p (n + 3) a0 (access.request a).buff rest distinct there
                  ends h' in
              elim cases [
                | inl (_, kept) ↦ subst (IsFree p) (sym kept) ih
                | inr (_, kept) ↦ subst (IsFree p) (sym kept) (away, ih)
              ]
        ]

    -- A round comes to its end if the handler does.
    pub check_requests_returns :
        (cells : List (Cell A)) (n : ℕ) (m : Buffer)
        → ((now : ℕ) (a : A) → (a' : A) × (handle now a ≡ some a'))
        → (round : Round A) × (run n m cells ≡ some round)
    unfolding check_requests
    check_requests_returns [] n m total =
        (record { kept = []; saved = []; deleted = []; buff = m }, refl)
    check_requests_returns (c ∷ cs) n m total =
        let (a, h) = total (clock n) (with_buff access c.element m) in
        let (rest, h') = check_requests_returns cs (n + 3) (access.request a).buff total in
        let t = timeout (clock (suc n)) (clock (n + 2)) limit (access.request a) in
        let left : Cell A = record c { element = access.with_request a t.1 } in
        (
          remove_request_check access left (record rest { saved = t.0 ++ rest.saved }),
          ap
                (λ (o : Option A). handled access o λ a.
                  checked access c a
                    (timeout (clock (suc n)) (clock (n + 2)) limit (access.request a))
                    (run (n + 3) (access.request a).buff cs))
                h
              ∙ ap (checked access c a t) h',
        )
