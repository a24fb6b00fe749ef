-- ===== src/Prelude/Division.antt =====
-- Division on the native numbers.
use tavern.Prelude.{ℕ, ◌/◌, ◌≤◌, ◌<◌, arith}

pub div_mono : (a b p : ℕ) → 0 < p → a ≤ b → a / p ≤ b / p
div_mono a b p h k = grind arith
