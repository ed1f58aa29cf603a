-- ===== src/Creation/Put/Cases.antt =====
-- `put_request_no_client` (requests.c) on every branch.
use ccsds_file_delivery_prot.Common.{
  ℕ, ◌+◌, ◌==◌, ◌≡◌, refl, ap, ◌∙◌, arith, inl, inr, ◌⊎◌, if◌then◌else◌, Bool, true, false, not,
  ◌||◌, Option, none, some, u32, List, [], ◌∷◌, Returns, if-cases,
}
use ccsds_file_delivery_prot.Wire.{Bytes}
use ccsds_file_delivery_prot.File.Missing.{Offset, add_first_offset}
use ccsds_file_delivery_prot.File.Missing.Transfer.{whole_file}
use ccsds_file_delivery_prot.Message.{strnlen, max_path}
use ccsds_file_delivery_prot.Request.{Request, File, sending_start}
use ccsds_file_delivery_prot.Incoming.Handler.{Ensures}
use ccsds_file_delivery_prot.Creation.Put.{
  FileCalls, Configured, to_bool, does_file_exist, file_of, create_file, with_missing, with_file,
  with_size, put_request_no_client,
}

-- Both names are given, or none.
abbrev pub both : Option Bytes → Option Bytes → Bool
both none none = true
both (some a) (some b) = true
both none (some b) = false
both (some a) none = false

-- What `add_first_offset` leaves of a file, with memory for the node and without.
abbrev pub first_missing : Bool → ℕ → List Offset
first_missing node size = if node then whole_file size else []

-- A request for a file has it with all its bytes to be acknowledged, if there was memory for the node,
-- and none sent; one for messages has none.
abbrev pub Waits : Bool → Option Bytes → Request → Request → Type 0
Waits node none before req = req.file ≡ before.file
Waits node (some source) before req =
    (file : File) × (req.file ≡ some file)
    × (file.missing_offsets ≡ first_missing node file.total_size)
    × (file.next_offset_to_send ≡ 0)

-- What a configured request is like: refused with the number left, or numbered and waiting.
abbrev pub IsConfigured : Bool → ℕ → Request → Option Bytes → Configured → Type 0
IsConfigured node number req source c =
    ((c.ok ≡ false) × (c.next_number ≡ number))
    ⊎ ((c.ok ≡ true)
        × (c.next_number ≡ u32 (number + 1))
        × (c.request.transaction_sequence_number ≡ number)
        × (c.request.procedure ≡ sending_start)
        × (c.request.paused ≡ req.paused)
        × Waits node source req c.request)

module _ (calls : FileCalls) (my_cfdp_id number mode : ℕ) (req : Request) where
  abbrev Is : Option Bytes → Configured → Type 0
  Is = IsConfigured calls.node_memory number req

  abbrev IsNew : Option File → Type 0
  IsNew = Ensures (λ file. (file.missing_offsets ≡ []) × (file.next_offset_to_send ≡ 0))

  file_of-IsNew : (memory : Bool) (size : Option ℕ) → IsNew (file_of memory size)
  file_of-IsNew memory none = tt
  file_of-IsNew memory (some size) = if-cases IsNew (not memory) (λ h. tt) (λ h. (refl, refl))

  create_file-IsNew : (name : Bytes) → IsNew (create_file calls name)
  unfolding create_file
  create_file-IsNew name =
      if-cases IsNew (not (calls.open_or_create name)) (λ h. tt) (λ h. file_of-IsNew _ _)

  add_first_offset-IsWhole :
      (file : File)
      → file.missing_offsets ≡ []
      → Ensures
          (λ missing. missing ≡ first_missing calls.node_memory file.total_size)
          (add_first_offset calls.offset_memory calls.node_memory file.missing_offsets
            file.total_size)
  unfolding add_first_offset
  add_first_offset-IsWhole file empty =
      let whole : List Offset → List Offset =
        λ l. record { start = 0; end = file.total_size } ∷ l in
      let P : Option (List Offset) → Type 0 =
        Ensures (λ missing. missing ≡ first_missing calls.node_memory file.total_size) in
      if-cases P (not calls.offset_memory) (λ h. tt)
        (λ h.
          if-cases P calls.node_memory (λ h2. ap whole empty ∙ ground (arith, h2))
            (λ h2. empty ∙ ground (arith, h2)))

  with_missing-IsConfigured :
      (source destination : Bytes) (size : ℕ) (file : File) (o : Option (List Offset))
      → file.next_offset_to_send ≡ 0
      → Ensures (λ missing. missing ≡ first_missing calls.node_memory file.total_size) o
      → Is
          (some source)
          (with_missing calls my_cfdp_id number mode source destination size req file o)
  with_missing-IsConfigured source destination size file none begin whole = inl (refl, refl)
  with_missing-IsConfigured source destination size file (some missing) begin whole = inr (
    refl,
    refl,
    refl,
    refl,
    refl,
    (record file { missing_offsets = missing }, refl, whole, begin),
  )

  with_file-IsConfigured :
      (source destination : Bytes) (size : ℕ) (o : Option File)
      → IsNew o
      → Is (some source) (with_file calls my_cfdp_id number mode source destination size req o)
  with_file-IsConfigured source destination size none new = inl (refl, refl)
  with_file-IsConfigured source destination size (some file) (empty, begin) =
      with_missing-IsConfigured source destination size file _ begin
        (add_first_offset-IsWhole file empty)

  with_size-IsConfigured :
      (source destination : Bytes) (o : Option ℕ)
      → Is (some source) (with_size calls my_cfdp_id number mode source destination req o)
  with_size-IsConfigured source destination none = inl (refl, refl)
  with_size-IsConfigured source destination (some size) =
      with_file-IsConfigured source destination size _ (create_file-IsNew source)

  -- With both names or none, a request is configured or refused.
  pub put_request_no_client-IsConfigured :
      (source destination : Option Bytes)
      → both source destination ≡ true
      → Returns
          (Is source)
          (put_request_no_client calls my_cfdp_id number mode source destination req)
  unfolding put_request_no_client
  put_request_no_client-IsConfigured none none h = inr (refl, refl, refl, refl, refl, refl)
  put_request_no_client-IsConfigured (some a) none h = absurd (cc h)
  put_request_no_client-IsConfigured none (some b) h = absurd (cc h)
  put_request_no_client-IsConfigured (some a) (some b) h =
      if-cases (Returns (Is (some a))) ((strnlen a max_path == 0) || (strnlen b max_path == 0))
        (λ h. inl (refl, refl))
        (λ h.
          if-cases (Returns (Is (some a))) (not (to_bool (does_file_exist calls a)))
            (λ h. inl (refl, refl)) (λ h. with_size-IsConfigured a b _))
