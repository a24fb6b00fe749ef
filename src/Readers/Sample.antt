-- ===== src/Readers/Sample.antt =====
-- A reader that gives one byte at a time, and sizes of reads, for tests.
use tavern.Prelude.{
  ℕ, zero, suc, ◌-◌, ◌≤◌, ◌<◌, ◌≡◌, refl, true, false, List, [], ◌∷◌, arith, length, All,
}
use tavern.Prelude.Text.{Bytes}
use tavern.Readers.Stream.{Reader, Mode, Status, nil, eof, Delivered, Delivers}

abbrev pub one_byte : Bytes → ℕ → Bytes × Status × Bytes
one_byte [] k = ([], eof, [])
one_byte (x ∷ xs) zero = ([], nil, x ∷ xs)
one_byte (x ∷ xs) (suc k) = (x ∷ [], nil, xs)

abbrev pub slow : Reader Bytes
slow = record { read = one_byte; close = λ s. true }

abbrev pub sure : Mode
sure = record { may_fail = false; sticky = true }

abbrev pub Left : Bytes → ℕ → Bytes → Type 0
Left s m b = (b ≡ s) × (length s ≤ m)

slow-step :
    (s : Bytes) (m : ℕ) (b : Bytes) (k : ℕ) → Left s m b → Delivered sure Left m b k (one_byte s k)
slow-step [] m b k (e, l) = (e, omega arith, λ h. (m, (refl, l), omega arith))
slow-step (x ∷ xs) m b zero (e, l) =
    (m, x ∷ xs, e, (refl, l), omega arith, omega arith, λ h. absurd (omega arith))
slow-step (x ∷ xs) m b (suc k) (e, l) =
    (m - 1, xs, e, (refl, omega arith), omega arith, omega arith, λ h. omega arith)

pub slow-Delivers : Delivers slow sure Left
slow-Delivers = record { step = slow-step }

abbrev pub sizes : List ℕ
sizes = 3 ∷ 1 ∷ 2 ∷ 9 ∷ 4 ∷ 1 ∷ 1 ∷ 1 ∷ []

pub sizes-All : All (λ k. 0 < k) sizes
sizes-All = (
  omega arith,
  (
    omega arith,
    (omega arith, (omega arith, (omega arith, (omega arith, (omega arith, (omega arith, tt)))))),
  ),
)
