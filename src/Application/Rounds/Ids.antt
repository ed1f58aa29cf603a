-- ===== src/Application/Rounds/Ids.antt =====
-- A round of app_control.c leaves requests with different ids.
use ccsds_file_delivery_prot.Common.{
  ℕ, suc, ◌+◌, ◌≡◌, ap, sym, ◌∙◌, subst, arith, inl, inr, false, Option, some, List, [], ◌∷◌, All,
  All-map,
}
use ccsds_file_delivery_prot.Wire.{Buffer}
use ccsds_file_delivery_prot.Request.{Request}
use ccsds_file_delivery_prot.Clock.{timeout}
use ccsds_file_delivery_prot.Application.{
  Cell, Access, Round, with_buff, check_requests, find_request,
}
use ccsds_file_delivery_prot.Application.Ids.{SameIds}
use ccsds_file_delivery_prot.Application.Rounds.{after, check_requests_step, timeout_ids}
use ccsds_file_delivery_prot.Application.Sound.{DistinctIds}
use ccsds_file_delivery_prot.Application.Routing.Store.{find_request-SameIds}

module _ {A : Type 0} (access : Access A)
    (law : (a : A) (req : Request) → access.request (access.with_request a req) ≡ req)
    (handle : ℕ → A → Option A) (limit : ℕ) (clock : ℕ → ℕ)
    (keeps : (now : ℕ) (a a' : A)
      → handle now a ≡ some a'
      → SameIds (access.request a) (access.request a')) where
  after-SameIds :
      (n : ℕ) (m : Buffer) (c : Cell A) (a : A)
      → handle (clock n) (with_buff access c.element m) ≡ some a
      → SameIds
          (access.request c.element)
          (access.request (after access law handle limit clock n c a).element)
  after-SameIds n m c a e =
      let (source, number) = keeps (clock n) (with_buff access c.element m) a e in
      let given = law c.element (record (access.request c.element) { buff = m }) in
      let left = law a (timeout (clock (suc n)) (clock (n + 2)) limit (access.request a)).1 in
      let (source', number') =
        timeout_ids (clock (suc n)) (clock (n + 2)) limit (access.request a) in
      (
        ap (λ (r : Request). r.dest_cfdp_id) left
            ∙ source'
            ∙ source
            ∙ ap (λ (r : Request). r.dest_cfdp_id) given,
        ap (λ (r : Request). r.transaction_sequence_number) left
            ∙ number'
            ∙ number
            ∙ ap (λ (r : Request). r.transaction_sequence_number) given,
      )

  check_requests-All :
      (P : Request → Type 0) (cells : List (Cell A)) (n : ℕ) (m : Buffer) (round : Round A)
      → ((x y : Request) → SameIds x y → P x → P y)
      → check_requests access handle limit clock n m cells ≡ some round
      → All (λ d. P (access.request d.element)) cells
      → All (λ d. P (access.request d.element)) round.kept
  unfolding check_requests
  check_requests-All P [] n m round closed e all =
      let same : [] ≡ round.kept = cc e in subst (All (λ d. P (access.request d.element))) same tt
  check_requests-All P (c ∷ cs) n m round closed e (here, all) =
      let (a, rest, h, h', cases) =
        check_requests_step access law handle limit clock n m c cs round e in
      let ih = check_requests-All P cs (n + 3) (access.request a).buff rest closed h' all in
      elim cases [
        | inl (_, same) ↦ subst (All (λ d. P (access.request d.element))) (sym same) ih
        | inr (_, same) ↦
            subst (All (λ d. P (access.request d.element))) (sym same)
              (closed _ _ (after-SameIds n m c a h) here, ih)
      ]

  -- The requests that stay have different ids.
  pub check_requests-DistinctIds :
      (cells : List (Cell A)) (n : ℕ) (m : Buffer) (round : Round A)
      → check_requests access handle limit clock n m cells ≡ some round
      → DistinctIds access cells
      → DistinctIds access round.kept
  unfolding check_requests
  check_requests-DistinctIds [] n m round e distinct =
      let same : [] ≡ round.kept = cc e in subst (DistinctIds access) same tt
  check_requests-DistinctIds (c ∷ cs) n m round e (first, distinct) =
      let (a, rest, h, h', cases) =
        check_requests_step access law handle limit clock n m c cs round e in
      let ih = check_requests-DistinctIds cs (n + 3) (access.request a).buff rest h' distinct in
      elim cases [
        | inl (_, same) ↦ subst (DistinctIds access) (sym same) ih
        | inr (_, same) ↦
            let left = after access law handle limit clock n c a in
            subst (DistinctIds access) (sym same) (
              check_requests-All
                  (λ req.
                    find_request req.dest_cfdp_id req.transaction_sequence_number
                      (access.request left.element)
                    ≡ false)
                  cs (n + 3) (access.request a).buff rest
                  (λ x y (source, number) other. ground (arith, source, number, other)) h'
                  (All-map
                    (λ d other.
                      find_request-SameIds _ _ (access.request c.element)
                        (access.request left.element) (after-SameIds n m c a h)
                      ∙ other)
                    cs first),
              ih,
            )
      ]
