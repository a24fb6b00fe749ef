-- ===== src/Prelude/Text.antt =====
-- Text as a list of bytes, and what the program calls of Go's `strings` and `strconv`.
use Prim.Native.Char.{code}
use Prim.Native.String.{String}
use tavern.Prelude.{
  ℕ, zero, suc, ◌+◌, ◌-◌, ◌*◌, ◌/◌, ◌%◌, ◌^◌, Bool, true, false, ◌&&◌, ◌||◌, Option, none, some,
  ◌≡◌, refl, List, [], ◌∷◌, ltb, leb, ◌==◌, if◌then◌else◌, drop, ◌<◌, arith,
}
use tavern.Prelude.Int.{ℤ, pos, negsuc, pos_part}

abbrev pub Bytes : Type 0
Bytes = List ℕ

-- The code points of a literal; its bytes, where the text is ASCII.
abbrev pub codes : String → Bytes
codes String.[] = []
codes (String.◌∷◌ c s) = code c ∷ codes s

unfoldable pub bytes_eq : Bytes → Bytes → Bool
bytes_eq [] [] = true
bytes_eq [] (y ∷ ys) = false
bytes_eq (x ∷ xs) [] = false
bytes_eq (x ∷ xs) (y ∷ ys) = x == y && bytes_eq xs ys

pub bytes_eq_refl : (b : Bytes) → bytes_eq b b ≡ true
unfolding bytes_eq
bytes_eq_refl [] = refl
bytes_eq_refl (x ∷ xs) = ground (arith, bytes_eq_refl xs)

pub bytes_eq-true : (a b : Bytes) → bytes_eq a b ≡ true → a ≡ b
unfolding bytes_eq
bytes_eq-true [] [] h = refl
bytes_eq-true [] (y ∷ ys) h = cc
bytes_eq-true (x ∷ xs) [] h = cc
bytes_eq-true (x ∷ xs) (y ∷ ys) h = ground (arith, bytes_eq-true xs ys)

-- `strings.HasPrefix(s, prefix)`
unfoldable pub has_prefix : Bytes → Bytes → Bool
has_prefix s [] = true
has_prefix [] (p ∷ ps) = false
has_prefix (c ∷ s) (p ∷ ps) = c == p && has_prefix s ps

abbrev length' : Bytes → ℕ
length' [] = 0
length' (x ∷ xs) = suc (length' xs)

-- `strings.TrimPrefix(s, prefix)`
unfoldable pub trim_prefix : Bytes → Bytes → Bytes
unfolding has_prefix
trim_prefix s p = if has_prefix s p then drop (length' p) s else s

-- `strings.IndexByte(s, c)`, where `none` is -1
unfoldable pub index_byte : Bytes → ℕ → Option ℕ
index_byte [] b = none
index_byte (c ∷ s) b =
    if c == b then some 0 else elim (index_byte s b) [ none ↦ none | some i ↦ some (suc i) ]

-- `strings.Split(s, sep)` for a separator of one byte: one part more than separators.
abbrev pub push_head : ℕ → List Bytes → List Bytes
push_head c [] = (c ∷ []) ∷ []
push_head c (w ∷ ws) = (c ∷ w) ∷ ws

unfoldable pub split : Bytes → ℕ → List Bytes
split [] sep = [] ∷ []
split (c ∷ s) sep = let rest = split s sep in if c == sep then [] ∷ rest else push_head c rest

abbrev pub is_space : ℕ → Bool
is_space c = c == 32 || (leb 9 c && leb c 13)

unfoldable pub trim_left : Bytes → Bytes
trim_left [] = []
trim_left (c ∷ s) = if is_space c then trim_left s else c ∷ s

unfoldable pub trim_right : Bytes → Bytes
trim_right [] = []
trim_right (c ∷ s) = elim (trim_right s) [
  | [] ↦ if is_space c then [] else c ∷ []
  | d ∷ t ↦ c ∷ d ∷ t
]

-- `strings.TrimSpace(s)` on ASCII text
unfoldable pub trim_space : Bytes → Bytes
unfolding trim_left trim_right
trim_space s = trim_right (trim_left s)

abbrev pub is_digit : ℕ → Bool
is_digit c = leb 48 c && leb c 57

-- `strconv`: a number with the error that came with it
pub data NumError : Type 0 where
  nil syntax range : NumError

-- `strconv.ParseUint(s, 10, 64)` after its check for the empty text
unfoldable pub parse_digits : ℕ → Bytes → ℕ × NumError
parse_digits n [] = (n, nil)
parse_digits n (c ∷ s) =
    let m = n * 10 + (c - 48) in
    let rest = parse_digits m s in
    if is_digit c then (if ltb m (2 ^ 64) then rest else (2 ^ 64 - 1, range)) else (0, syntax)

unfoldable pub parse_uint : Bytes → ℕ × NumError
unfolding parse_digits
parse_uint [] = (0, syntax)
parse_uint (c ∷ s) = parse_digits 0 (c ∷ s)

-- the cutoffs of `strconv.ParseInt` on what `ParseUint` gave
abbrev signed : Bool → ℕ × NumError → ℤ × NumError
signed neg (n, syntax) = (pos 0, syntax)
signed false (n, e) = if ltb n (2 ^ 63) then (pos n, e) else (pos (2 ^ 63 - 1), range)
signed true (n, e) =
    if leb n (2 ^ 63)
    then ((if n == 0 then pos 0 else negsuc (n - 1)), e)
    else (negsuc (2 ^ 63 - 1), range)

-- `strconv.ParseInt(s, 10, 64)`
unfoldable pub parse_int : Bytes → ℤ × NumError
unfolding parse_uint
parse_int [] = (pos 0, syntax)
parse_int (c ∷ s) =
    if c == b'-'
    then signed true (parse_uint s)
    else if c == b'+'
    then signed false (parse_uint s)
    else signed false (parse_uint (c ∷ s))

-- `strconv.Itoa` and the verb `%d`
unfoldable pub show_digits : ℕ → ℕ → Bytes → Bytes
show_digits zero n acc = acc
show_digits (suc f) n acc =
    let rest = show_digits f (n / 10) ((48 + n % 10) ∷ acc) in
    if ltb n 10 then (48 + n % 10) ∷ acc else rest

unfoldable pub show_ℕ : ℕ → Bytes
unfolding show_digits
show_ℕ n = show_digits (n + 1) n []

unfoldable pub show_ℤ : ℤ → Bytes
unfolding show_ℕ
show_ℤ (pos n) = show_ℕ n
show_ℤ (negsuc n) = b'-' ∷ show_ℕ (n + 1)

-- What `ParseInt` gives is an int64.
pub parse_int-small : (s : Bytes) → pos_part (parse_int s).0 < 2 ^ 63
unfolding parse_int
parse_int-small [] = omega arith
parse_int-small (c ∷ s) = ground arith
