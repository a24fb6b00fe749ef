-- ===== src/Savepart/Align.antt =====
-- Where a position stands between block boundaries.
use native.Mathlib.Nat.{lt_of_mul-lt-mul_right}
use tavern.Prelude.{ℕ, ◌+◌, ◌-◌, ◌*◌, ◌/◌, ◌%◌, ◌≤◌, ◌<◌, ◌≡◌, ◌≢◌, ◌⊎◌, arith}

-- a position behind the boundary k
pub mod_past : (k p x : ℕ) → 0 < p → k * p ≤ x → x < k * p + p → x % p ≡ x - k * p
mod_past k p x h l u = grind arith

pub mod_full : (k p x : ℕ) → 0 < p → x ≡ k * p + p → x % p ≡ 0
mod_full k p x h e = grind arith

pub div_boundary : (k p : ℕ) → 0 < p → k * p / p ≡ k
div_boundary k p h = grind arith

-- The boundary k is the first one that is not before the position.
pub to_boundary :
    (k p x : ℕ)
    → 0 < p
    → x ≤ k * p
    → k * p < x + p
    → ((x % p ≡ 0) × (x ≡ k * p)) ⊎ ((x % p ≢ 0) × (p - x % p ≡ k * p - x) × (x < k * p))
to_boundary k p x h l u = grind arith

-- the first boundary that is not before a position
pub first_boundary : (p x : ℕ) → 0 < p → (k : ℕ) × (x ≤ k * p) × (k * p < x + p)
first_boundary p x h = ((x + p - 1) / p, grind arith, grind arith)

pub boundary_before : (p i j : ℕ) → i * p < j * p → i < j
boundary_before p i j h = lt_of_mul-lt-mul_right p h
