-- ===== src/Storage/Mark.antt =====
-- `Mark` of api/defined/v1/storage/storage.go: the last access and the references of an object in the 64
-- bits of one word. Shifts and masks are written as the arithmetic that they do.
use tavern.Prelude.{ℕ, ◌+◌, ◌-◌, ◌*◌, ◌/◌, ◌%◌, ◌^◌, ◌<◌, ◌≡◌, arith, ltb, if◌then◌else◌, min}

-- `LastAccess`, the word without its lowest 16 bits
unfoldable pub last_access : ℕ → ℕ
last_access m = m / 2 ^ 16

-- `Refs`, the lowest 16 bits
unfoldable pub refs : ℕ → ℕ
refs m = m % 2 ^ 16

-- `NewMark` of references below 2^16, for which `|` adds; the clock is shifted out of its 48 bits
unfoldable pub new_mark : ℕ → ℕ → ℕ
new_mark clock refs = clock * 2 ^ 16 % 2 ^ 64 + refs

-- `SetLastAccess`: the upper 48 bits are cleared, and those of the clock added
unfoldable pub set_last_access : ℕ → ℕ → ℕ
set_last_access m clock = m % 2 ^ 16 + clock * 2 ^ 16 % 2 ^ 64

-- `SetRefs`
unfoldable pub set_refs : ℕ → ℕ → ℕ
set_refs m refs = m / 2 ^ 16 * 2 ^ 16 + (if ltb (2 ^ 16 - 1) refs then 2 ^ 16 - 1 else refs)

-- The word keeps both numbers apart: for a clock of 48 bits, the last access that is set is read, and the
-- references are as before; the references that are set are read, up to the largest of 16 bits, and the
-- last access is as before.
pub marks_apart :
    (m clock n : ℕ)
    → m < 2 ^ 64
    → clock < 2 ^ 48
    → (last_access (set_last_access m clock) ≡ clock)
      × (refs (set_last_access m clock) ≡ refs m)
      × (refs (set_refs m n) ≡ min n (2 ^ 16 - 1))
      × (last_access (set_refs m n) ≡ last_access m)
      × (set_last_access m clock < 2 ^ 64)
      × (set_refs m n < 2 ^ 64)
unfolding last_access refs set_last_access set_refs
marks_apart m clock n h k =
    (omega arith, omega arith, ground arith, ground arith, omega arith, ground arith)

-- A mark of 48 and 16 bits gives both numbers back.
pub new_mark_lem :
    (clock n : ℕ)
    → clock < 2 ^ 48
    → n < 2 ^ 16
    → (last_access (new_mark clock n) ≡ clock) × (refs (new_mark clock n) ≡ n)
unfolding last_access refs new_mark
new_mark_lem clock n h k = (omega arith, omega arith)
