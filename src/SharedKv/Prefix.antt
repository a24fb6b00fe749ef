-- ===== src/SharedKv/Prefix.antt =====
-- storage/sharedkv/nonekv.go: `keyUpperBound`, `IteratePrefix` and `DropPrefix`. Keys are lists of
-- bytes, and the store orders them as pebble's default comparer does (bytes.Compare).
use tavern.Prelude.{
  ℕ, ◌+◌, ◌%◌, ◌<◌, ◌≡◌, ◌≢◌, refl, ap, inl, inr, Bool, true, false, not, ◌&&◌, ◌||◌, Option, none,
  some, [], ◌∷◌, arith, ltb, ◌==◌, if◌then◌else◌, All, Bool-cases, Option-cases,
}
use tavern.Prelude.Text.{Bytes, has_prefix}

-- bytes.Compare(a, b) < 0
abbrev pub below : Bytes → Bytes → Bool
below [] [] = false
below [] (y ∷ ys) = true
below (x ∷ xs) [] = false
below (x ∷ xs) (y ∷ ys) = ltb x y || (x == y && below xs ys)

-- a byte plus one
abbrev pub next_byte : ℕ → ℕ
next_byte x = (x + 1) % 256

-- `keyUpperBound` drops the bytes that wrap around; `none` is the nil that stands for no bound.
-- From the right, the first byte that does not wrap around ends the bound.
unfoldable pub key_upper_bound : Bytes → Option Bytes
key_upper_bound [] = none
key_upper_bound (x ∷ xs) =
    let rest = key_upper_bound xs in
    elim rest [
      | some ys ↦ some (x ∷ ys)
      | none ↦ if next_byte x == 0 then none else some (next_byte x ∷ [])
    ]

-- Whether a key lies in an iteration from `lower`, with no upper bound or below it.
abbrev pub in_bounds : Bytes → Option Bytes → Bytes → Bool
in_bounds lower none key = not (below key lower)
in_bounds lower (some upper) key = not (below key lower) && below key upper

-- the keys that `IteratePrefix` visits
unfoldable pub iterates : Bytes → Bytes → Bool
unfolding key_upper_bound
iterates prefix key = in_bounds prefix (key_upper_bound prefix) key

-- `DropPrefix`: the last byte plus one, with no carry; the empty prefix panics (`none`)
abbrev pub bump_last : ℕ → Bytes → Bytes
bump_last x [] = next_byte x ∷ []
bump_last x (y ∷ ys) = x ∷ bump_last y ys

unfoldable pub drop_end : Bytes → Option Bytes
drop_end [] = none
drop_end (x ∷ xs) = some (bump_last x xs)

-- the keys that `DropPrefix` deletes
unfoldable pub drops : Bytes → Bytes → Option Bool
unfolding drop_end
drops prefix key = elim (drop_end prefix) [
  | none ↦ none
  | some end ↦ some (in_bounds prefix (some end) key)
]

abbrev pub AreBytes : Bytes → Type 0
AreBytes b = All (λ x. x < 256) b

not_below_nil : (b : Bytes) → below b [] ≡ false
not_below_nil [] = refl
not_below_nil (x ∷ xs) = refl

no_bound :
    (p key : Bytes)
    → AreBytes p
    → AreBytes key
    → key_upper_bound p ≡ none
    → not (below key p) ≡ has_prefix key p
unfolding key_upper_bound has_prefix
no_bound [] [] h k e = refl
no_bound [] (y ∷ ys) h k e = refl
no_bound (x ∷ xs) [] h k e = refl
no_bound (x ∷ xs) (y ∷ ys) h k e = elim (Option-cases (key_upper_bound xs)) [
  | inl n ↦ ground (arith, no_bound xs ys h.1 k.1 n)
  | inr (b, m) ↦ ground arith
]

some_inj : (a b : Bytes) → some a ≡ some b → a ≡ b
some_inj a b e = cc

-- the bound of a key whose tail has none, and of one whose tail has one
bound_none :
    (x : ℕ) (xs b : Bytes)
    → key_upper_bound xs ≡ none
    → key_upper_bound (x ∷ xs) ≡ some b
    → (b ≡ next_byte x ∷ []) × (next_byte x ≢ 0)
unfolding key_upper_bound
bound_none x xs b n e = elim (Bool-cases (next_byte x == 0)) [
  | inl z ↦ ground arith
  | inr z ↦ (ground arith, ground arith)
]

bound_some :
    (x : ℕ) (xs b b' : Bytes)
    → key_upper_bound xs ≡ some b'
    → key_upper_bound (x ∷ xs) ≡ some b
    → b ≡ x ∷ b'
unfolding key_upper_bound
bound_some x xs b b' n e = ground arith

bounded :
    (p key b : Bytes)
    → AreBytes p
    → AreBytes key
    → key_upper_bound p ≡ some b
    → (not (below key p) && below key b) ≡ has_prefix key p
unfolding key_upper_bound has_prefix
bounded [] key b h k e = cc
bounded (x ∷ xs) [] b h k e = ground arith
bounded (x ∷ xs) (y ∷ ys) b h k e = elim (Option-cases (key_upper_bound xs)) [
  | inl n ↦
      let (at, inside) = bound_none x xs b n e in
      rw at (ground (arith, inside, not_below_nil ys, no_bound xs ys h.1 k.1 n))
  | inr (b', m) ↦ rw (bound_some x xs b b' m e) (ground (arith, bounded xs ys b' h.1 k.1 m))
]

abbrev pub last_byte : ℕ → Bytes → ℕ
last_byte x [] = x
last_byte x (y ∷ ys) = last_byte y ys

bumped :
    (x : ℕ) (xs key : Bytes)
    → AreBytes (x ∷ xs)
    → AreBytes key
    → last_byte x xs < 255
    → (not (below key (x ∷ xs)) && below key (bump_last x xs)) ≡ has_prefix key (x ∷ xs)
unfolding has_prefix
bumped x [] [] h k l = refl
bumped x [] (z ∷ zs) h k l = ground (arith, not_below_nil zs)
bumped x (y ∷ ys) [] h k l = refl
bumped x (y ∷ ys) (z ∷ zs) h k l = ground (arith, bumped y ys zs h.1 k.1 l)

-- For keys of bytes, `IteratePrefix` visits exactly the keys that begin with the prefix.
pub iterates_lem : (p key : Bytes) → AreBytes p → AreBytes key → iterates p key ≡ has_prefix key p
unfolding iterates
iterates_lem p key h k = elim (Option-cases (key_upper_bound p)) [
  | inl n ↦ ground (arith, no_bound p key h k n)
  | inr (b, m) ↦ ground (arith, bounded p key b h k m)
]

-- `DropPrefix` deletes exactly the keys that begin with the prefix, for keys of bytes and a prefix
-- that is not empty and whose last byte is below 255.
pub drops_lem :
    (x : ℕ) (xs key : Bytes)
    → AreBytes (x ∷ xs)
    → AreBytes key
    → last_byte x xs < 255
    → drops (x ∷ xs) key ≡ some (has_prefix key (x ∷ xs))
unfolding drops
drops_lem x xs key h k l = ap some (bumped x xs key h k l)
