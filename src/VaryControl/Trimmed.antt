-- ===== src/VaryControl/Trimmed.antt =====
-- The keys that `canonical` of pkg/x/http/varycontrol/vary.go gives: trimmed, and without a comma.
use tavern.Prelude.{
  ℕ, ◌≡◌, ◌≢◌, ◌⊎◌, inl, inr, refl, sym, ap, subst, ◌∙◌, false, List, [], ◌∷◌, Bool-cases,
  if◌then◌else◌, All, ◌==◌, ==_iff,
}
use tavern.Prelude.Text.{
  Bytes, bytes_eq, is_space, push_head, split, trim_left, trim_right, trim_space,
}
use tavern.Prelude.Decimal.{split_lacking}
use tavern.VaryControl.{trimmed_keys, canonical}

-- A key as `canonical` gives it: `canonical` gives it again, alone.
abbrev pub IsKey : Bytes → Type 0
IsKey k = canonical k ≡ k ∷ []

trim_left-twice : (s : Bytes) → trim_left (trim_left s) ≡ trim_left s
unfolding trim_left
trim_left-twice [] = refl
trim_left-twice (c ∷ s) = elim (Bool-cases (is_space c)) [
  | inl e ↦ rw e (trim_left-twice s)
  | inr e ↦ simp e refl
]

-- one step of `trim_right`
abbrev right_step : ℕ → Bytes → Bytes
right_step c [] = if is_space c then [] else c ∷ []
right_step c (d ∷ t) = c ∷ d ∷ t

trim_right-step : (c : ℕ) (s : Bytes) → trim_right (c ∷ s) ≡ right_step c (trim_right s)
unfolding trim_right
trim_right-step c s =
    elim (trim_right s)
      as (λ t.
        elim t [ [] ↦ if is_space c then [] else c ∷ [] | d ∷ u ↦ c ∷ d ∷ u ] ≡ right_step c t) [
          | [] ↦ refl
          | d ∷ u ↦ refl
        ]

right_step-twice :
    (c : ℕ) (t : Bytes) → trim_right t ≡ t → trim_right (right_step c t) ≡ right_step c t
right_step-twice c [] h = elim (Bool-cases (is_space c)) [
  | inl e ↦ simp e h
  | inr e ↦ simp e (trim_right-step c [] ∙ ap (right_step c) h ∙ simp e refl)
]
right_step-twice c (d ∷ t) h = trim_right-step c (d ∷ t) ∙ ap (right_step c) h

trim_right-twice : (s : Bytes) → trim_right (trim_right s) ≡ trim_right s
unfolding trim_right
trim_right-twice [] = refl
trim_right-twice (c ∷ s) =
    rw (trim_right-step c s) (right_step-twice c (trim_right s) (trim_right-twice s))

trim_left-cases :
    (s : Bytes)
    → (trim_left s ≡ []) ⊎ ((c : ℕ) × (t : Bytes) × (trim_left s ≡ c ∷ t) × (is_space c ≡ false))
unfolding trim_left
trim_left-cases [] = inl refl
trim_left-cases (c ∷ s) = elim (Bool-cases (is_space c)) [
  | inl e ↦ rw e (trim_left-cases s)
  | inr e ↦ inr (c, s, simp e refl, e)
]

trim_left-step :
    (c : ℕ) (t : Bytes) → is_space c ≡ false → trim_left (right_step c t) ≡ right_step c t
unfolding trim_left
trim_left-step c [] e = simp e refl
trim_left-step c (d ∷ t) e = simp e refl

trim_space-twice : (s : Bytes) → trim_space (trim_space s) ≡ trim_space s
unfolding trim_space trim_left trim_right
trim_space-twice s = elim (trim_left-cases s) [
  | inl e ↦ rw e refl
  | inr (c, t, e, n) ↦
      let same : trim_left (trim_right (c ∷ t)) ≡ trim_right (c ∷ t) =
        ap trim_left (trim_right-step c t)
        ∙ trim_left-step c (trim_right t) n
        ∙ sym (trim_right-step c t) in
      ap (λ l. trim_right (trim_left (trim_right l))) e
      ∙ ap trim_right same
      ∙ trim_right-twice (c ∷ t)
      ∙ sym (ap trim_right e)
]

-- No comma is in a part of a text that is split at commas, and none comes in by trimming.
abbrev IsPart : Bytes → Type 0
IsPart s = All (λ c. c ≢ b',') s

trim_left-IsPart : (s : Bytes) → IsPart s → IsPart (trim_left s)
unfolding trim_left
trim_left-IsPart [] h = tt
trim_left-IsPart (c ∷ s) h = elim (Bool-cases (is_space c)) [
  | inl e ↦ rw e (trim_left-IsPart s h.1)
  | inr e ↦ rw e h
]

right_step-IsPart : (c : ℕ) (t : Bytes) → c ≢ b',' → IsPart t → IsPart (right_step c t)
right_step-IsPart c [] n h = elim (Bool-cases (is_space c)) [
  | inl e ↦ rw e tt
  | inr e ↦ rw e (n, tt)
]
right_step-IsPart c (d ∷ t) n h = (n, h)

trim_right-IsPart : (s : Bytes) → IsPart s → IsPart (trim_right s)
unfolding trim_right
trim_right-IsPart [] h = tt
trim_right-IsPart (c ∷ s) (n, h) =
    subst IsPart (sym (trim_right-step c s))
      (right_step-IsPart c (trim_right s) n (trim_right-IsPart s h))

trim_space-IsPart : (s : Bytes) → IsPart s → IsPart (trim_space s)
unfolding trim_space
trim_space-IsPart s h = trim_right-IsPart (trim_left s) (trim_left-IsPart s h)

push_head-IsPart :
    (c : ℕ) (ss : List Bytes) → c ≢ b',' → All IsPart ss → All IsPart (push_head c ss)
push_head-IsPart c [] n h = ((n, tt), tt)
push_head-IsPart c (s ∷ ss) n h = ((n, h.0), h.1)

split-IsPart : (s : Bytes) → All IsPart (split s b',')
unfolding split
split-IsPart [] = (tt, tt)
split-IsPart (c ∷ s) = elim (Bool-cases (c == b',')) [
  | inl e ↦ rw e (tt, split-IsPart s)
  | inr e ↦
      rw e (
        push_head-IsPart c (split s b',') (λ same. cc ((==_iff c b',').1 same, e)) (split-IsPart s))
]

-- a trimmed part that is not empty
abbrev IsTrimmed : Bytes → Type 0
IsTrimmed k = IsPart k × (trim_space k ≡ k) × (bytes_eq k [] ≡ false)

IsTrimmed-IsKey : (k : Bytes) → IsTrimmed k → IsKey k
unfolding canonical trimmed_keys
IsTrimmed-IsKey k (p, t, n) = rw (t, split_lacking k b',' p) (rw t (rw n refl))

trimmed_keys-IsKey : (ss : List Bytes) → All IsPart ss → All IsKey (trimmed_keys ss)
unfolding trimmed_keys
trimmed_keys-IsKey [] h = tt
trimmed_keys-IsKey (s ∷ ss) (p, h) = elim (Bool-cases (bytes_eq (trim_space s) [])) [
  | inl e ↦ rw e (trimmed_keys-IsKey ss h)
  | inr e ↦ rw e (
    IsTrimmed-IsKey (trim_space s) (trim_space-IsPart s p, trim_space-twice s, e),
    trimmed_keys-IsKey ss h,
  )
]

pub canonical-IsKey : (v : Bytes) → All IsKey (canonical v)
unfolding canonical
canonical-IsKey v = trimmed_keys-IsKey (split (trim_space v) b',') (split-IsPart (trim_space v))
