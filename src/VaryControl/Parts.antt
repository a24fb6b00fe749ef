-- ===== src/VaryControl/Parts.antt =====
-- `Clean` by the parts of the values between their commas.
use tavern.Prelude.{
  ◌≡◌, inl, inr, refl, sym, ap, ◌∙◌, Bool, true, false, not, ◌&&◌, ◌||◌, List, [], ◌∷◌, ◌++◌, map,
  arith, Bool-cases,
}
use tavern.Prelude.Text.{Bytes, bytes_eq, bytes_eq-true, trim_space, split}
use tavern.VaryControl.{trimmed_keys, canonical, all_keys, clean, elem}
use tavern.VaryControl.Keys.{IsStrict, clean_lem}

-- the parts of the values, without the space around the values
abbrev pub parts_of : List Bytes → List Bytes
parts_of [] = []
parts_of (v ∷ vs) = split (trim_space v) b',' ++ parts_of vs

-- whether a text is not empty, and one of the parts without the space around them
abbrev pub is_part : Bytes → List Bytes → Bool
is_part k ps = not (bytes_eq k []) && elem k (map trim_space ps)

elem-append : (k : Bytes) (xs ys : List Bytes) → elem k (xs ++ ys) ≡ (elem k xs || elem k ys)
elem-append k [] ys = refl
elem-append k (x ∷ xs) ys = ground (arith, elem-append k xs ys)

map-append :
    (xs ys : List Bytes) → map trim_space (xs ++ ys) ≡ map trim_space xs ++ map trim_space ys
map-append [] ys = refl
map-append (x ∷ xs) ys = ap (λ l. trim_space x ∷ l) (map-append xs ys)

drop_part : (b e : Bool) → (not b && e) ≡ (not b && (b || e))
drop_part true e = refl
drop_part false e = refl

keep_part : (b c e : Bool) → (c ≡ true → b ≡ false) → (c || (not b && e)) ≡ (not b && (c || e))
keep_part true true e h = cc (h refl)
keep_part false true e h = refl
keep_part b false e h = refl

elem-trimmed_keys : (k : Bytes) (ps : List Bytes) → elem k (trimmed_keys ps) ≡ is_part k ps
unfolding trimmed_keys
elem-trimmed_keys k [] = ground arith
elem-trimmed_keys k (p ∷ ps) =
    let ih = elem-trimmed_keys k ps in
    elim (Bool-cases (bytes_eq (trim_space p) [])) [
      | inl e ↦
          rw (e, bytes_eq-true (trim_space p) [] e)
            (ih ∙ drop_part (bytes_eq k []) (elem k (map trim_space ps)))
      | inr e ↦ rw e (
          ap (λ b. bytes_eq k (trim_space p) || b) ih
          ∙ keep_part (bytes_eq k []) (bytes_eq k (trim_space p)) (elem k (map trim_space ps))
              (λ h. ap (λ t. bytes_eq t []) (bytes_eq-true k (trim_space p) h) ∙ e))
    ]

or_parts : (b c d : Bool) → ((not b && c) || (not b && d)) ≡ (not b && (c || d))
or_parts true c d = refl
or_parts false c d = refl

elem-all_keys : (k : Bytes) (vs : List Bytes) → elem k (all_keys vs) ≡ is_part k (parts_of vs)
unfolding canonical
elem-all_keys k [] = ground arith
elem-all_keys k (v ∷ vs) =
    let ps = split (trim_space v) b',' in
    let qs = parts_of vs in
    rw (elem-append k (canonical v) (all_keys vs), elem-trimmed_keys k ps, elem-all_keys k vs)
      (or_parts (bytes_eq k []) (elem k (map trim_space ps)) (elem k (map trim_space qs))
        ∙ ap (λ b. not (bytes_eq k []) && b)
            (sym (elem-append k (map trim_space ps) (map trim_space qs))
              ∙ ap (elem k) (sym (map-append ps qs))))

-- `Clean` gives texts in ascending order, each of them once: those that are not empty and that are, without
-- the space around them, one of the parts between the commas of one of the values.
pub clean-parts :
    (vs : List Bytes)
    → IsStrict (clean vs)
      × ((k : Bytes)
          → elem k (clean vs) ≡ (not (bytes_eq k []) && elem k (map trim_space (parts_of vs))))
clean-parts vs = ((clean_lem vs).0, λ k. (clean_lem vs).1 k ∙ elem-all_keys k vs)
