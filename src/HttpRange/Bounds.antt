-- ===== src/HttpRange/Bounds.antt =====
-- The ranges that the lenient parser gives lie inside the object.
use tavern.Prelude.{ℕ, ◌^◌, ◌<◌, ◌≡◌, refl, Option, none, some, List, [], ◌∷◌, arith, All}
use tavern.Prelude.Int.{ℤ, pos, ◌≤ℤ◌, ◌<ℤ◌, of_bits64, ◌-64◌}
use tavern.Prelude.Text.{Bytes, NumError, codes, split, trim_space, trim_prefix, parse_int}
use tavern.HttpRange.{
  Range, Result, ok, err, accept, not_found, invalid_format, resolve, resolve_fields, cons_some,
  nonempty, first_of_ranges, parse_part, parse_parts, parse, single_parse,
}

-- The range is not empty and lies inside an object of the given size.
pub record IsInside (size : ℕ) (r : Range) : Type 0 where
  pub start_nonneg : pos 0 ≤ℤ r.start
  pub ordered : r.start ≤ℤ r.end
  pub inside : r.end <ℤ pos size

last_byte : (size : ℕ) → size < 2 ^ 63 → of_bits64 size -64 pos 1 <ℤ pos size
unfolding ◌-64◌
last_byte size h = ground arith

size64_lem : (size : ℕ) → size < 2 ^ 63 → of_bits64 size ≡ pos size
size64_lem size h = ground arith

accept-IsInside :
    (size : ℕ) (last start end : ℤ) (r : Range)
    → size < 2 ^ 63
    → last <ℤ pos size
    → accept (of_bits64 size) last start end ≡ some r
    → IsInside size r
unfolding accept
accept-IsInside size last start end r k h e = ground arith

resolve-IsInside :
    (size : ℕ) (a b : ℤ × NumError) (r : Range)
    → size < 2 ^ 63
    → resolve (of_bits64 size) a b ≡ some r
    → IsInside size r
unfolding resolve
resolve-IsInside size a b r h e =
    let last = of_bits64 size -64 pos 1 in
    ground (
      arith,
      last_byte size h,
      accept-IsInside size last a.0 last r h,
      accept-IsInside size last a.0 b.0 r h,
      accept-IsInside size last (of_bits64 size -64 b.0) last r h,
    )

resolve_fields-IsInside :
    (size : ℕ) (fields : List Bytes) (r : Range)
    → size < 2 ^ 63
    → resolve_fields (of_bits64 size) fields ≡ some r
    → IsInside size r
resolve_fields-IsInside size [] r h e = cc
resolve_fields-IsInside size (a ∷ []) r h e = cc
resolve_fields-IsInside size (a ∷ b ∷ fs) r h e =
    resolve-IsInside size (parse_int a) (parse_int b) r h e

parse_part-IsInside :
    (size : ℕ) (part : Bytes) (r : Range)
    → size < 2 ^ 63
    → parse_part (of_bits64 size) part ≡ some r
    → IsInside size r
unfolding parse_part
parse_part-IsInside size part r h e =
    ground (arith, resolve_fields-IsInside size (split (trim_space part) b'-') r h)

parse_parts-IsInside :
    (size : ℕ) (parts : List Bytes)
    → size < 2 ^ 63
    → All (IsInside size) (parse_parts (of_bits64 size) parts)
unfolding parse_parts
parse_parts-IsInside size [] h = tt
parse_parts-IsInside size (part ∷ parts) h =
    All-cons_some size (parse_part (of_bits64 size) part) _
      (λ r e. parse_part-IsInside size part r h e) (parse_parts-IsInside size parts h)
  where
    All-cons_some :
        (size : ℕ) (o : Option Range) (rs : List Range)
        → ((r : Range) → o ≡ some r → IsInside size r)
        → All (IsInside size) rs
        → All (IsInside size) (cons_some o rs)
    All-cons_some size none rs f h = h
    All-cons_some size (some r) rs f h = (f r refl, h)

nonempty-IsInside :
    (size : ℕ) (rs ss : List Range)
    → nonempty rs ≡ ok ss
    → All (IsInside size) rs
    → All (IsInside size) ss
nonempty-IsInside size [] ss e h = cc
nonempty-IsInside size (r ∷ rs) [] e h = tt
nonempty-IsInside size (r ∷ rs) (s ∷ ss) e h = ground arith

-- Every range that the parser of the cache gives for an object of `size` bytes, `size` below 2^63,
-- is not empty and lies inside the object, whatever the header.
pub parse-IsInside :
    (header : Bytes) (size : ℕ) (rs : List Range)
    → size < 2 ^ 63
    → parse header size ≡ ok rs
    → All (IsInside size) rs
unfolding parse
parse-IsInside [] size rs h e = ground arith
parse-IsInside (c ∷ s) size rs h e =
    let parts = split (trim_prefix (c ∷ s) (codes "bytes=")) b',' in
    ground (
      arith,
      nonempty-IsInside size (parse_parts (of_bits64 size) parts) rs,
      parse_parts-IsInside size parts h,
    )

first_of_ranges-IsInside :
    (size : ℕ) (res : Result (List Range)) (r : Range)
    → 0 < size
    → size < 2 ^ 63
    → ((rs : List Range) → res ≡ ok rs → All (IsInside size) rs)
    → first_of_ranges size res ≡ ok r
    → IsInside size r
unfolding ◌-64◌
first_of_ranges-IsInside size (err not_found) r p h f e = ground arith
first_of_ranges-IsInside size (err invalid_format) r p h f e = cc
first_of_ranges-IsInside size (ok []) r p h f e = cc
first_of_ranges-IsInside size (ok (q ∷ qs)) r p h f e = ground (arith, f (q ∷ qs) refl)

-- The one range that a cache hit is served by lies inside the object, whether the request has a
-- Range header or not, for an object of `size` bytes, 0 < `size` < 2^63.
pub single_parse-IsInside :
    (header : Bytes) (size : ℕ) (r : Range)
    → 0 < size
    → size < 2 ^ 63
    → single_parse header size ≡ ok r
    → IsInside size r
unfolding single_parse
single_parse-IsInside header size r p h e =
    first_of_ranges-IsInside size (parse header size) r p h
      (λ rs q. parse-IsInside header size rs h q) e
