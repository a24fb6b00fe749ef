-- ===== src/VaryControl/Again.antt =====
-- `Clean` of what `Clean` has given, and of values whose keys are known.
use mathlib.Core.List.{append_assoc}
use tavern.Prelude.{
  ◌≡◌, ◌≢◌, ◌⊎◌, inl, inr, refl, sym, ap, subst, ◌∙◌, true, false, ◌||◌, List, [], ◌∷◌, ◌++◌, arith,
  Bool-cases, All,
}
use tavern.Prelude.Text.{Bytes, bytes_eq, bytes_eq_refl, bytes_eq-true}
use tavern.VaryControl.{le_text, canonical, all_keys, clean, elem}
use tavern.VaryControl.Sorted.{le_text-antisym, le_text_trans}
use tavern.VaryControl.Trimmed.{IsKey, canonical-IsKey}
use tavern.VaryControl.Keys.{IsStrict, clean_lem}

-- Two lists in ascending order that have the same texts are the same list.
IsStrict-tail : (x : Bytes) (xs : List Bytes) → IsStrict (x ∷ xs) → IsStrict xs
IsStrict-tail x [] s = tt
IsStrict-tail x (y ∷ ys) (h, n, s) = s

le_elem :
    (x k : Bytes) (xs : List Bytes)
    → IsStrict (x ∷ xs)
    → elem k xs ≡ true
    → (le_text x k ≡ true) × (x ≢ k)
le_elem x k [] s h = absurd (cc h)
le_elem x k (y ∷ ys) (l, n, s) h = elim (Bool-cases (bytes_eq k y)) [
  | inl e ↦ rw (bytes_eq-true k y e) (l, n)
  | inr e ↦
      let (m, o) = le_elem y k ys s (simp e at h) in
      (le_text_trans x y k l m, λ same. n (le_text-antisym x y l (rw same m)))
]

below_all : (x : Bytes) (xs : List Bytes) → IsStrict (x ∷ xs) → elem x xs ≡ false
below_all x xs s = elim (Bool-cases (elem x xs)) [
  | inl e ↦ absurd ((le_elem x x xs s e).1 refl)
  | inr e ↦ e
]

elem_head : (k x : Bytes) (xs : List Bytes) → elem k (x ∷ xs) ≡ true → (k ≡ x) ⊎ (elem k xs ≡ true)
elem_head k x xs h = elim (Bool-cases (bytes_eq k x)) [
  | inl e ↦ inl (bytes_eq-true k x e)
  | inr e ↦ inr (simp e at h)
]

same_head :
    (x y : Bytes) (xs ys : List Bytes)
    → IsStrict (x ∷ xs)
    → IsStrict (y ∷ ys)
    → ((k : Bytes) → elem k (x ∷ xs) ≡ elem k (y ∷ ys))
    → x ≡ y
same_head x y xs ys s t h = elim (elem_head x y ys (sym (h x) ∙ simp (bytes_eq_refl x))) [
  | inl e ↦ e
  | inr e ↦ elim (elem_head y x xs (h y ∙ simp (bytes_eq_refl y))) [
    | inl f ↦ sym f
    | inr f ↦ le_text-antisym x y (le_elem x y xs s f).0 (le_elem y x ys t e).0
  ]
]

same_tail :
    (x : Bytes) (xs ys : List Bytes)
    → IsStrict (x ∷ xs)
    → IsStrict (x ∷ ys)
    → ((k : Bytes) → elem k (x ∷ xs) ≡ elem k (x ∷ ys))
    → (k : Bytes) → elem k xs ≡ elem k ys
same_tail x xs ys s t h k = elim (Bool-cases (bytes_eq k x)) [
  | inl e ↦ rw (bytes_eq-true k x e) (below_all x xs s ∙ sym (below_all x ys t))
  | inr e ↦ simp e at (h k)
]

pub IsStrict-unique :
    (xs ys : List Bytes)
    → IsStrict xs
    → IsStrict ys
    → ((k : Bytes) → elem k xs ≡ elem k ys)
    → xs ≡ ys
IsStrict-unique [] [] s t h = refl
IsStrict-unique [] (y ∷ ys) s t h = cc (simp (bytes_eq_refl y) at (h y))
IsStrict-unique (x ∷ xs) [] s t h = cc (simp (bytes_eq_refl x) at (h x))
IsStrict-unique (x ∷ xs) (y ∷ ys) s t h =
    let e = same_head x y xs ys s t h in
    let ih = IsStrict-unique xs ys (IsStrict-tail x xs s) (IsStrict-tail y ys t) (
      same_tail x xs ys s (subst (λ z. IsStrict (z ∷ ys)) (sym e) t)
        (subst (λ z. (k : Bytes) → elem k (x ∷ xs) ≡ elem k (z ∷ ys)) (sym e) h)) in
    ap (λ z. z ∷ xs) e ∙ ap (λ l. y ∷ l) ih

All-append : (xs ys : List Bytes) → All IsKey xs → All IsKey ys → All IsKey (xs ++ ys)
All-append [] ys h g = g
All-append (x ∷ xs) ys h g = (h.0, All-append xs ys h.1 g)

all_keys-IsKey : (vs : List Bytes) → All IsKey (all_keys vs)
all_keys-IsKey [] = tt
all_keys-IsKey (v ∷ vs) =
    All-append (canonical v) (all_keys vs) (canonical-IsKey v) (all_keys-IsKey vs)

elem-IsKey : (k : Bytes) (xs : List Bytes) → All IsKey xs → elem k xs ≡ true → IsKey k
elem-IsKey k [] h e = cc e
elem-IsKey k (x ∷ xs) h e = elim (elem_head k x xs e) [
  | inl f ↦ subst IsKey (sym f) h.0
  | inr f ↦ elem-IsKey k xs h.1 f
]

keys_same : (xs : List Bytes) → All IsKey xs → all_keys xs ≡ xs
keys_same [] h = refl
keys_same (x ∷ xs) h = ap (λ l. l ++ all_keys xs) h.0 ∙ ap (λ l. x ∷ l) (keys_same xs h.1)

-- where every text of a list is a key, as each is in a list of keys
All-elem : (xs : List Bytes) → ((k : Bytes) → elem k xs ≡ true → IsKey k) → All IsKey xs
All-elem [] h = tt
All-elem (x ∷ xs) h =
    (h x (simp (bytes_eq_refl x) refl), All-elem xs (λ k e. h k (ground (arith, e))))

clean-IsKey : (vs : List Bytes) → All IsKey (clean vs)
clean-IsKey vs =
    All-elem (clean vs)
      (λ k e. elem-IsKey k (all_keys vs) (all_keys-IsKey vs) (sym ((clean_lem vs).1 k) ∙ e))

-- `Clean` gives again what it has given.
pub clean-twice : (vs : List Bytes) → clean (clean vs) ≡ clean vs
clean-twice vs =
    IsStrict-unique (clean (clean vs)) (clean vs) (clean_lem (clean vs)).0 (clean_lem vs).0
      (λ k. (clean_lem (clean vs)).1 k ∙ ap (elem k) (keys_same (clean vs) (clean-IsKey vs)))

elem-append : (k : Bytes) (xs ys : List Bytes) → elem k (xs ++ ys) ≡ (elem k xs || elem k ys)
elem-append k [] ys = refl
elem-append k (x ∷ xs) ys = ground (arith, elem-append k xs ys)

all_keys-append : (vs ws : List Bytes) → all_keys (vs ++ ws) ≡ all_keys vs ++ all_keys ws
all_keys-append [] ws = refl
all_keys-append (v ∷ vs) ws =
    ap (λ l. canonical v ++ l) (all_keys-append vs ws)
    ∙ sym (append_assoc (canonical v) (all_keys vs) (all_keys ws))

elem-clean-append :
    (k : Bytes) (vs ws : List Bytes)
    → elem k (clean (vs ++ ws)) ≡ (elem k (clean vs) || elem k (clean ws))
elem-clean-append k vs ws =
    (clean_lem (vs ++ ws)).1 k
    ∙ ap (elem k) (all_keys-append vs ws)
    ∙ elem-append k (all_keys vs) (all_keys ws)
    ∙ sym (rw ((clean_lem vs).1 k, (clean_lem ws).1 k) refl)

-- Values of the same keys as two lists of values together give the keys of both.
pub clean-append :
    (vs ws ts : List Bytes)
    → ((k : Bytes) → (elem k (clean vs) || elem k (clean ws)) ≡ elem k (clean ts))
    → clean (vs ++ ws) ≡ clean ts
clean-append vs ws ts h =
    IsStrict-unique (clean (vs ++ ws)) (clean ts) (clean_lem (vs ++ ws)).0 (clean_lem ts).0
      (λ k. elem-clean-append k vs ws ∙ h k)
