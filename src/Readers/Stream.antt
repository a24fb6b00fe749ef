-- ===== src/Readers/Stream.antt =====
-- `io.ReadCloser` as a state machine, and what it means that a reader delivers given bytes.
use tavern.Prelude.{
  ℕ, zero, suc, ◌-◌, ◌≤◌, ◌<◌, ◌≡◌, refl, Bool, true, false, Option, none, some, List, [], ◌∷◌,
  ◌++◌, arith, length, min, drop, All, length-append, subst, ap, sym, ◌∙◌,
}
use tavern.Prelude.Text.{Bytes}
use tavern.Prelude.Slices.{drop-append_past}

-- the error of a read: none, `io.EOF`, or another; or a count below 0, which the contract forbids
pub data Status : Type 0 where
  nil eof failed bad_count : Status

-- A read with room for so many bytes gives bytes, a status and the next state; `close` says whether
-- `Close` returns no error.
pub record Reader (S : Type 0) : Type 0 where
  pub read : S → ℕ → Bytes × Status × S
  pub close : S → Bool

-- Whether reads may fail, and whether a read after the end gives the end again.
pub record Mode : Type 0 where
  pub may_fail : Bool
  pub sticky : Bool

-- `P s m b`: in the state s the bytes b are still to come, in at most m reads before the last one.
abbrev pub Delivered :
    {S : Type 0} → Mode → (S → ℕ → Bytes → Type 0) → ℕ → Bytes → ℕ → Bytes × Status × S → Type 0
Delivered mode P m b k (d, nil, s) =
    (m' : ℕ) × (rest : Bytes) × (b ≡ d ++ rest)
    × P s m' rest
    × (length d ≤ k)
    × (m' ≤ m)
    × (0 < k → m' < m)
Delivered mode P m b k (d, eof, s) =
    (b ≡ d) × (length d ≤ k) × (mode.sticky ≡ true → (m' : ℕ) × P s m' [] × (m' ≤ m))
Delivered mode P m b k (d, failed, s) =
    (mode.may_fail ≡ true)
    × (m' : ℕ) × (rest : Bytes) × (b ≡ d ++ rest)
    × P s m' rest
    × (length d ≤ k)
    × (m' ≤ m)
Delivered mode P m b k (d, bad_count, s) = ⊥

-- Each read from a state with bytes to come gives the first of them, of at most the size asked for.
pub record Delivers {S : Type 0} (r : Reader S) (mode : Mode) (P : S → ℕ → Bytes → Type 0)
    : Type 0 where
  pub step : (s : S) (m : ℕ) (b : Bytes) (k : ℕ) → P s m b → Delivered mode P m b k (r.read s k)

-- what is missing when a copy stops; the error is dropped where nothing is missing
abbrev pub stopped : {S : Type 0} → ℕ → Status → S → Option (ℕ × Status × S)
stopped zero st s = some (0, nil, s)
stopped (suc n) st s = some (suc n, st, s)

abbrev pub copy_on :
    {S : Type 0}
    → (ℕ → S → Option (ℕ × Status × S))
    → ℕ
    → Bytes × Status × S
    → Option (ℕ × Status × S)
copy_on again n (d, nil, s) = again (n - length d) s
copy_on again n (d, eof, s) = stopped (n - length d) eof s
copy_on again n (d, failed, s) = stopped (n - length d) failed s
copy_on again n (d, bad_count, s) = stopped (n - length d) bad_count s

abbrev pub prefix : Bytes → Option Bytes → Option Bytes
prefix d none = none
prefix d (some rest) = some (d ++ rest)

abbrev pub read_on : {S : Type 0} → (S → Option Bytes) → Bytes × Status × S → Option Bytes
read_on again (d, nil, s) = prefix d (again s)
read_on again (d, eof, s) = some d
read_on again (d, failed, s) = none
read_on again (d, bad_count, s) = none

module _ {S : Type 0} (r : Reader S) where
  -- `io.CopyN` to `io.Discard` of n bytes, with the rounds left: the bytes that are missing, the
  -- error (none where nothing is missing), and the next state. The buffer of `io.Discard` has 8192
  -- bytes. Without rounds the loop has not ended, which is no result.
  unfoldable pub discard : ℕ → ℕ → S → Option (ℕ × Status × S)
  discard zero n s = none
  discard (suc rounds) n s = elim n [
    | zero ↦ some (0, nil, s)
    | suc k ↦ copy_on (discard rounds) (suc k) (r.read s (min (suc k) 8192))
  ]

  -- `io.ReadAll` with reads of the given sizes in turn
  unfoldable pub read_all : List ℕ → S → Option Bytes
  read_all [] s = none
  read_all (k ∷ ks) s = read_on (read_all ks) (r.read s k)

  module _ {mode : Mode} {P : S → ℕ → Bytes → Type 0} (law : Delivers r mode P) where
    -- Discarding fewer bytes than are to come leaves the others.
    pub discard_lem :
        (rounds n : ℕ) (s : S) (m : ℕ) (b : Bytes)
        → P s m b
        → m < rounds
        → n < length b
        → mode.may_fail ≡ false
        → (s' : S) × (m' : ℕ) × (discard rounds n s ≡ some (0, nil, s'))
          × P s' m' (drop n b)
          × (m' ≤ m)
    unfolding discard
    discard_lem zero n s m b p h l f = absurd (omega arith)
    discard_lem (suc rounds) zero s m b p h l f = (s, m, refl, p, omega arith)
    discard_lem (suc rounds) (suc n) s m b p h l f =
        after (discard_lem rounds) (r.read s (min (suc n) 8192))
          (law.step s m b (min (suc n) 8192) p)
      where
        after :
            ((j : ℕ) (t : S) (m' : ℕ) (rest : Bytes)
              → P t m' rest
              → m' < rounds
              → j < length rest
              → mode.may_fail ≡ false
              → (s' : S) × (m'' : ℕ) × (discard rounds j t ≡ some (0, nil, s'))
                × P s' m'' (drop j rest)
                × (m'' ≤ m'))
            → (a : Bytes × Status × S) → Delivered mode P m b (min (suc n) 8192) a
            → (s' : S) × (m' : ℕ) × (copy_on (discard rounds) (suc n) a ≡ some (0, nil, s'))
              × P s' m' (drop (suc n) b)
              × (m' ≤ m)
        after ih (d, nil, t) (m', rest, e, q, fits, le', less) =
            let size = ap length e in
            let (s', m'', done, left, le) =
              ih (suc n - length d) t m' rest q (omega arith)
                (omega (arith, size, length-append d rest)) f in
            let shift : drop (suc n) b ≡ drop (suc n - length d) rest =
              ap (λ x. drop (suc n) x) e ∙ drop-append_past (suc n) d rest (omega arith) in
            (s', m'', done, subst (λ x. P s' m'' x) (sym shift) left, omega arith)
        after ih (d, eof, t) (e, fits, again) = absurd (omega (arith, ap length e))
        after ih (d, failed, t) (may, m', rest, e, q, fits, le) = cc (may, f)
        after ih (d, bad_count, t) g = absurd g

    -- A reader that does not fail delivers all its bytes, whatever the sizes of the reads, if they
    -- are above 0 and there are enough of them.
    pub read_all_lem :
        (ks : List ℕ) (s : S) (m : ℕ) (b : Bytes)
        → P s m b
        → All (λ k. 0 < k) ks
        → m < length ks
        → mode.may_fail ≡ false
        → read_all ks s ≡ some b
    unfolding read_all
    read_all_lem [] s m b p a h f = absurd (omega arith)
    read_all_lem (k ∷ ks) s m b p a h f = after (read_all_lem ks) (r.read s k) (law.step s m b k p)
      where
        after :
            ((t : S) (m' : ℕ) (rest : Bytes)
              → P t m' rest
              → All (λ k. 0 < k) ks
              → m' < length ks
              → mode.may_fail ≡ false
              → read_all ks t ≡ some rest)
            → (x : Bytes × Status × S) → Delivered mode P m b k x
            → read_on (read_all ks) x ≡ some b
        after ih (d, nil, t) (m', rest, e, q, fits, le', less) =
            rw (ih t m' rest q a.1 (omega (arith, less a.0)) f, e) refl
        after ih (d, eof, t) (e, fits, again) = ap some (sym e)
        after ih (d, failed, t) (may, m', rest, e, q, fits, le) = cc (may, f)
        after ih (d, bad_count, t) g = absurd g
