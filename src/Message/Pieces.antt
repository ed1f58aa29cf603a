-- ===== src/Message/Pieces.antt =====
-- C strings and byte sequences, as they are copied.
use ccsds_file_delivery_prot.Common.{
  ℕ, zero, suc, ◌+◌, ◌<◌, ◌≤◌, ◌≡◌, refl, ap, sym, ◌∙◌, arith, ◌==◌, true, false, List, [], ◌∷◌,
  length, length-append, ◌++◌, ◌-◌, ltb, ltb→lt, Bool-cases, inl, inr,
}
use ccsds_file_delivery_prot.Wire.{Buffer, Bytes}
use ccsds_file_delivery_prot.Wire.Access.{Outside}
use ccsds_file_delivery_prot.Message.{bytes_of, read_bytes, strnlen, text}

pub strnlen-le : (b : Bytes) (max : ℕ) → strnlen b max ≤ max
strnlen-le b zero = omega arith
strnlen-le b (suc max) = ground (arith, strnlen-le (λ k. b (suc k)) max)

strnlen_step :
    (b : Bytes) (max : ℕ)
    → (b 0 == 0) ≡ false
    → strnlen b (suc max) ≡ suc (strnlen (λ k. b (suc k)) max)
strnlen_step b max e = rw e refl

-- Memory that holds the bytes of a string, and then a zero unless it is full, holds that string.
pub text_of :
    (max : ℕ) (b c : Bytes)
    → ((k : ℕ) → k < strnlen b max → c k ≡ b k)
    → (strnlen b max < max → c (strnlen b max) ≡ 0)
    → text max c ≡ text max b
text_of zero b c same end = refl
text_of (suc max) b c same end = elim (Bool-cases (b 0 == 0)) [
  | inl e ↦
      let len : strnlen b (suc max) ≡ 0 = rw e refl in
      let ended : (c 0 == 0) ≡ true = ground (arith, ap c len, end (omega (arith, len))) in
      rw (e, ended) refl
  | inr e ↦
      let len = strnlen_step b max e in
      let first : c 0 ≡ b 0 = same 0 (omega (arith, len)) in
      let rest =
        text_of max (λ k. b (suc k)) (λ k. c (suc k)) (λ k lt. same (suc k) (omega (arith, len)))
          (λ lt. ap c (sym len) ∙ end (omega (arith, len))) in
      rw (first, e) (ap (λ (xs : List ℕ). b 0 ∷ xs) rest)
]

-- As many bytes as a list has are read back as that list.
pub read_bytes_of :
    (xs : List ℕ) (b : Bytes)
    → ((k : ℕ) → k < length xs → b k ≡ bytes_of xs k)
    → read_bytes (length xs) b ≡ xs
read_bytes_of [] b same = refl
read_bytes_of (x ∷ xs) b same = rw (same 0 (omega arith)) (
    ap (λ (ys : List ℕ). x ∷ ys)
      (read_bytes_of xs (λ k. b (suc k)) (λ k lt. same (suc k) (omega arith))))

-- The memory from `i` on holds the bytes `xs`.
abbrev pub HoldsList : List ℕ → Buffer → ℕ → Type 0
HoldsList xs m i = (k : ℕ) → k < length xs → m.byte (i + k) ≡ bytes_of xs k

-- `m'` is `m` with the bytes `xs` written from `i` on.
pub record Writes (xs : List ℕ) (i : ℕ) (m m' : Buffer) : Type 0 where
  pub here : HoldsList xs m' i
  pub elsewhere : (j : ℕ) → Outside i (length xs) j → m'.byte j ≡ m.byte j

pub bytes_of_front :
    (xs ys : List ℕ) (k : ℕ) → k < length xs → bytes_of (xs ++ ys) k ≡ bytes_of xs k
bytes_of_front [] ys k lt = absurd (omega (arith, lt))
bytes_of_front (x ∷ xs) ys zero lt = refl
bytes_of_front (x ∷ xs) ys (suc k) lt = bytes_of_front xs ys k (omega (arith, lt))

bytes_of_back : (xs ys : List ℕ) (k : ℕ) → bytes_of (xs ++ ys) (length xs + k) ≡ bytes_of ys k
bytes_of_back [] ys k = ap (bytes_of ys) (omega arith)
bytes_of_back (x ∷ xs) ys k =
    let e : suc (length xs) + k ≡ suc (length xs + k) = omega arith in
    ap (bytes_of (x ∷ (xs ++ ys))) e ∙ bytes_of_back xs ys k

pub HoldsList-front :
    (xs ys : List ℕ) (m : Buffer) (i : ℕ) → HoldsList (xs ++ ys) m i → HoldsList xs m i
HoldsList-front xs ys m i holds k lt =
    holds k (omega (arith, lt, length-append xs ys)) ∙ bytes_of_front xs ys k lt

pub HoldsList-back :
    (xs ys : List ℕ) (m : Buffer) (i : ℕ)
    → HoldsList (xs ++ ys) m i
    → HoldsList ys m (i + length xs)
HoldsList-back xs ys m i holds k lt =
    ap m.byte (omega arith)
    ∙ holds (length xs + k) (omega (arith, lt, length-append xs ys))
    ∙ bytes_of_back xs ys k

HoldsList-append :
    (xs ys : List ℕ) (m : Buffer) (i : ℕ)
    → HoldsList xs m i
    → HoldsList ys m (i + length xs)
    → HoldsList (xs ++ ys) m i
HoldsList-append xs ys m i front back k lt = elim (Bool-cases (ltb k (length xs))) [
  | inl e ↦
      let inside = ltb→lt k (length xs) e in front k inside ∙ sym (bytes_of_front xs ys k inside)
  | inr e ↦
      let split : length xs + (k - length xs) ≡ k = ground arith in
      let small : k - length xs < length ys = omega (arith, lt, split, length-append xs ys) in
      ap m.byte (omega (arith, split))
      ∙ back (k - length xs) small
      ∙ sym (bytes_of_back xs ys (k - length xs))
      ∙ ap (bytes_of (xs ++ ys)) split
]

-- Bytes written one after the other.
pub Writes-append :
    (xs ys : List ℕ) (i : ℕ) (m m' m'' : Buffer)
    → Writes xs i m m'
    → Writes ys (i + length xs) m' m''
    → Writes (xs ++ ys) i m m''
Writes-append xs ys i m m' m'' first second = record {
  here =
      HoldsList-append xs ys m'' i
        (λ k lt. second.elsewhere (i + k) (inl (omega arith)) ∙ first.here k lt) second.here;
  elsewhere = λ j out. second.elsewhere j (later j out) ∙ first.elsewhere j (sooner j out);
}
  where
    later : (j : ℕ) → Outside i (length (xs ++ ys)) j → Outside (i + length xs) (length ys) j
    later j out = ground (arith, out, length-append xs ys)

    sooner : (j : ℕ) → Outside i (length (xs ++ ys)) j → Outside i (length xs) j
    sooner j out = ground (arith, out, length-append xs ys)
