-- ===== src/Prelude/Decimal.antt =====
-- Printed numbers are read back, and the text functions on text without the byte they look for.
use tavern.Prelude.{
  ℕ, zero, suc, ◌+◌, ◌-◌, ◌*◌, ◌/◌, ◌%◌, ◌^◌, ◌≤◌, ◌<◌, ◌≡◌, refl, ap, ◌∙◌, inl, inr, ◌≢◌, some, [],
  ◌∷◌, ◌++◌, arith, All, take, drop, length, Bool-cases, ltb,
}
use native.Mathlib.Nat.{suc-add}
use native.Mathlib.Numerals.{add-one}
use tavern.Prelude.Int.{pos}
use tavern.Prelude.Text.{
  Bytes, split, trim_left, trim_right, trim_space, index_byte, parse_digits, parse_uint, parse_int,
  nil, show_digits, show_ℕ,
}

abbrev pub IsDigit : ℕ → Type 0
IsDigit c = (48 ≤ c) × (c < 58)

parse_digits-cons :
    (m c : ℕ) (s : Bytes)
    → IsDigit c
    → m * 10 + (c - 48) < 2 ^ 64
    → parse_digits m (c ∷ s) ≡ parse_digits (m * 10 + (c - 48)) s
unfolding parse_digits
parse_digits-cons m c s h k = ground arith

-- the last digit of `n`, read after the others
parse_digits-last :
    (m n : ℕ) (s : Bytes)
    → n < 2 ^ 64
    → m ≡ n / 10
    → parse_digits m ((48 + n % 10) ∷ s) ≡ parse_digits n s
parse_digits-last m n s h e =
    parse_digits-cons m (48 + n % 10) s (omega arith) (omega arith)
    ∙ ap (λ k. parse_digits k s) (omega arith)

-- Enough fuel: what is printed in front of `acc` is read back before the reader goes on.
parse_digits-show_digits :
    (f n : ℕ) (acc : Bytes)
    → n < f
    → n < 2 ^ 64
    → parse_digits 0 (show_digits f n acc) ≡ parse_digits n acc
unfolding show_digits
parse_digits-show_digits zero n acc h k = absurd (omega arith)
parse_digits-show_digits (suc f) n acc h k = ground (
  arith,
  parse_digits-last 0 n acc,
  parse_digits-last (n / 10) n acc,
  parse_digits-show_digits f (n / 10) ((48 + n % 10) ∷ acc),
)

show_digits-IsDigit : (f n : ℕ) (acc : Bytes) → All IsDigit acc → All IsDigit (show_digits f n acc)
unfolding show_digits
show_digits-IsDigit zero n acc h = h
show_digits-IsDigit (suc f) n acc h =
    ground (arith, show_digits-IsDigit f (n / 10) ((48 + n % 10) ∷ acc))

-- All bytes of a printed number are digits.
pub show_ℕ-IsDigit : (n : ℕ) → All IsDigit (show_ℕ n)
unfolding show_ℕ
show_ℕ-IsDigit n = show_digits-IsDigit (n + 1) n [] tt

pub split_lacking : (s : Bytes) (sep : ℕ) → All (λ c. c ≢ sep) s → split s sep ≡ s ∷ []
unfolding split
split_lacking [] sep h = refl
split_lacking (c ∷ s) sep h = ground (arith, split_lacking s sep h.1)

trim_left_id : (s : Bytes) → All (λ c. 32 < c) s → trim_left s ≡ s
unfolding trim_left
trim_left_id [] h = refl
trim_left_id (c ∷ s) h = ground arith

pub trim_right_id : (s : Bytes) → All (λ c. 32 < c) s → trim_right s ≡ s
unfolding trim_right
trim_right_id [] h = refl
trim_right_id (c ∷ []) h = ground arith
trim_right_id (c ∷ d ∷ s) h = ground (arith, trim_right_id (d ∷ s) h.1)

pub trim_space_id : (s : Bytes) → All (λ c. 32 < c) s → trim_space s ≡ s
unfolding trim_space
trim_space_id s h = rw (trim_left_id s h) (trim_right_id s h)

pub index_byte-append :
    (s t : Bytes) (b : ℕ) → All (λ c. c ≢ b) s → index_byte (s ++ b ∷ t) b ≡ some (length s)
unfolding index_byte
index_byte-append [] t b h = ground arith
index_byte-append (c ∷ s) t b h = ground (arith, index_byte-append s t b h.1)

pub take-length-append : (s t : Bytes) → take (length s) (s ++ t) ≡ s
take-length-append [] t = refl
take-length-append (c ∷ s) t = ap (◌∷◌ c) (take-length-append s t)

pub drop-length-append : (s t : Bytes) (b : ℕ) → drop (length s + 1) (s ++ b ∷ t) ≡ t
drop-length-append [] t b = refl
drop-length-append (c ∷ s) t b = drop_suc (length s) c (s ++ b ∷ t) ∙ drop-length-append s t b
  where
    drop_suc : (n c : ℕ) (s : Bytes) → drop (suc n + 1) (c ∷ s) ≡ drop (n + 1) s
    drop_suc n c s = rw (suc-add n 1)

pub All-map {ℓ} : {P Q : ℕ → Type ℓ} (f : (c : ℕ) → P c → Q c) (s : Bytes) → All P s → All Q s
All-map f [] h = tt
All-map f (c ∷ s) h = (f c h.0, All-map f s h.1)

show_digits-cons :
    (f n c : ℕ) (acc : Bytes) → (d : ℕ) × (t : Bytes) × (show_digits f n (c ∷ acc) ≡ d ∷ t)
unfolding show_digits
show_digits-cons zero n c acc = (c, acc, refl)
show_digits-cons (suc f) n c acc = elim (Bool-cases (ltb n 10)) [
  | inl e ↦ (48 + n % 10, c ∷ acc, ground arith)
  | inr e ↦
      let (d, t, p) = show_digits-cons f (n / 10) (48 + n % 10) (c ∷ acc) in (d, t, ground arith)
]

-- A printed number is not empty.
pub show_ℕ-cons : (n : ℕ) → (d : ℕ) × (t : Bytes) × (show_ℕ n ≡ d ∷ t)
unfolding show_ℕ show_digits
show_ℕ-cons n = elim (Bool-cases (ltb n 10)) [
  | inl e ↦ (48 + n % 10, [], rw (add-one n) (ground arith))
  | inr e ↦
      let (d, t, p) = show_digits-cons n (n / 10) (48 + n % 10) [] in
      (d, t, rw (add-one n) (ground arith))
]

parse_digits-show_ℕ : (n : ℕ) → n < 2 ^ 64 → parse_digits 0 (show_ℕ n) ≡ (n, nil)
unfolding show_ℕ parse_digits
parse_digits-show_ℕ n h = parse_digits-show_digits (n + 1) n [] (omega arith) h

-- `ParseUint` reads back what `%d` prints of a uint64.
pub parse_uint-show_ℕ : (n : ℕ) → n < 2 ^ 64 → parse_uint (show_ℕ n) ≡ (n, nil)
unfolding parse_uint
parse_uint-show_ℕ n h = let (d, t, p) = show_ℕ-cons n in rw p (rw p at (parse_digits-show_ℕ n h))

-- `ParseInt` reads back what `%d` prints of an int64 that is not negative.
pub parse_int-show_ℕ : (n : ℕ) → n < 2 ^ 63 → parse_int (show_ℕ n) ≡ (pos n, nil)
unfolding parse_int
parse_int-show_ℕ n h =
    let (d, t, p) = show_ℕ-cons n in
    let read = rw p at (parse_uint-show_ℕ n (omega arith)) in
    let digits : All IsDigit (d ∷ t) = rw p at (show_ℕ-IsDigit n) in rw p (ground (arith, read))
