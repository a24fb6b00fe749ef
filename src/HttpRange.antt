-- ===== src/HttpRange.antt =====
-- pkg/x/http/range.go: `Range`, the lenient range parser of the cache, and `ParseContentRange`.
pub mod Bounds
mod Tests
use tavern.Prelude.{
  ℕ, ◌+◌, ◌-◌, ◌^◌, ◌<◌, ◌≤◌, ◌≡◌, Bool, true, false, not, ◌&&◌, ◌||◌, Option, none, some, List, [],
  ◌∷◌, ◌++◌, arith, if◌then◌else◌, ◌==◌,
}
use tavern.Prelude.Int.{ℤ, pos, negsuc, minus_one, ltb_ℤ, leb_ℤ, of_bits64, ◌+64◌, ◌-64◌, bits64}
use tavern.Prelude.Text.{
  Bytes, codes, has_prefix, trim_prefix, index_byte, split, trim_space, parse_int, NumError, nil,
  show_ℕ, show_ℤ,
}

pub record Range : Type 0 where
  pub start : ℤ
  pub end : ℤ

pub data RangeError : Type 0 where
  not_found invalid_format : RangeError

pub data Result {ℓ} (A : Type ℓ) : Type ℓ where
  ok : A → Result A
  err : RangeError → Result A

-- `Range.Length`
unfoldable pub range_length : Range → ℤ
unfolding ◌+64◌ ◌-64◌
range_length r = r.end -64 r.start +64 pos 1

-- `BuildHeaderRange`
unfoldable pub build_header_range : ℕ → ℕ → ℕ → Bytes
build_header_range start end total_size =
    codes "bytes " ++ show_ℕ start ++ b'-' ∷ show_ℕ end ++ b'/' ∷ show_ℕ total_size

abbrev open_ended : Range → Bool
open_ended r = leb_ℤ r.end (pos 0) && ltb_ℤ (pos 0) r.start

-- `Range.ContentRange`; `size-1` is a uint64
unfoldable pub content_range : Range → ℕ → Bytes
unfolding show_ℤ ◌-64◌
content_range r size =
    let size64 = of_bits64 size in
    let end = if leb_ℤ size64 r.end then size64 -64 pos 1 else r.end in
    if open_ended r
    then codes "bytes "
      ++ show_ℤ r.start
      ++ b'-' ∷ show_ℕ (bits64 (pos size -64 pos 1))
      ++ b'/' ∷ show_ℕ size
    else codes "bytes " ++ show_ℤ r.start ++ b'-' ∷ show_ℤ end ++ b'/' ∷ show_ℕ size

-- `Range.RangeLength`
unfoldable pub length_in : Range → ℤ → ℤ
unfolding range_length
length_in r total_size = if open_ended r then total_size -64 r.start else range_length r

-- `Range.String`
unfoldable pub to_string : Range → Bytes
unfolding show_ℤ
to_string r =
    if open_ended r
    then codes "bytes=" ++ show_ℤ r.start ++ b'-' ∷ []
    else codes "bytes=" ++ show_ℤ r.start ++ b'-' ∷ show_ℤ r.end

abbrev failed : NumError → Bool
failed nil = false
failed _ = true

-- The end is cut to the last byte; a range that is empty or starts below 0 is left out.
unfoldable pub accept : ℤ → ℤ → ℤ → ℤ → Option Range
accept size64 last start end =
    let end' = if leb_ℤ size64 end then last else end in
    if ltb_ℤ end' start || ltb_ℤ start (pos 0)
    then none
    else some (record { start = start; end = end' })

-- The bounds of one part, its numbers read: `none` is `continue`.
unfoldable pub resolve : ℤ → ℤ × NumError → ℤ × NumError → Option Range
resolve size64 (start, start_err) (end, end_err) =
    let last = size64 -64 pos 1 in
    if failed start_err && failed end_err
    then none
    else if failed start_err
    then accept size64 last (size64 -64 end) last
    else if failed end_err
    then accept size64 last start last
    else accept size64 last start end

abbrev pub contains_byte : Bytes → ℕ → Bool
contains_byte s b = elim (index_byte s b) [ none ↦ false | some _ ↦ true ]

-- A text with a dash splits into two parts at least; the code's branch for one part is dead.
abbrev pub resolve_fields : ℤ → List Bytes → Option Range
resolve_fields size64 (a ∷ b ∷ _) = resolve size64 (parse_int a) (parse_int b)
resolve_fields size64 _ = none

-- the body of the loop of `unsatisfiableParser.Parse`
unfoldable pub parse_part : ℤ → Bytes → Option Range
unfolding trim_space index_byte split
parse_part size64 raw =
    let part = trim_space raw in
    if contains_byte part b'-' then resolve_fields size64 (split part b'-') else none

abbrev pub cons_some : Option Range → List Range → List Range
cons_some none rs = rs
cons_some (some r) rs = r ∷ rs

unfoldable pub parse_parts : ℤ → List Bytes → List Range
unfolding parse_part
parse_parts size64 [] = []
parse_parts size64 (part ∷ parts) = cons_some (parse_part size64 part) (parse_parts size64 parts)

abbrev pub nonempty : List Range → Result (List Range)
nonempty [] = err invalid_format
nonempty (r ∷ rs) = ok (r ∷ rs)

-- `unsatisfiableParser.Parse`
unfoldable pub parse : Bytes → ℕ → Result (List Range)
unfolding has_prefix trim_prefix split parse_parts
parse [] size = err not_found
parse (c ∷ s) size =
    if has_prefix (c ∷ s) (codes "bytes=")
    then nonempty (parse_parts (of_bits64 size) (split (trim_prefix (c ∷ s) (codes "bytes=")) b','))
    else err invalid_format

abbrev pub first_of_ranges : ℕ → Result (List Range) → Result Range
first_of_ranges size (err not_found) =
    if size == 0
    then ok (record { start = pos 0; end = pos 0 })
    else ok (record { start = pos 0; end = of_bits64 size -64 pos 1 })
first_of_ranges size (err e) = err invalid_format
first_of_ranges size (ok []) = err invalid_format
first_of_ranges size (ok (r ∷ rs)) = ok r

-- `unsatisfiableParser.SingleParse`
unfoldable pub single_parse : Bytes → ℕ → Result Range
unfolding parse ◌-64◌
single_parse header size = first_of_ranges size (parse header size)

abbrev multi_fields : ℤ × NumError → ℤ × NumError → Option Range
multi_fields (start, start_err) (end, end_err) =
    if failed start_err && failed end_err
    then none
    else if ltb_ℤ end start || ltb_ℤ start (pos 0)
    then none
    else some (record { start = start; end = end })

abbrev multi_split : List Bytes → Option Range
multi_split (a ∷ b ∷ _) = multi_fields (parse_int a) (parse_int b)
multi_split _ = none

-- the body of the loop of `UnsatisfiableMultiRange`
unfoldable pub multi_part : Bytes → Option Range
unfolding trim_space index_byte split parse_int
multi_part raw =
    let part = trim_space raw in
    if contains_byte part b'-' then multi_split (split part b'-') else none

unfoldable pub multi_parts : List Bytes → List Range
unfolding multi_part
multi_parts [] = []
multi_parts (part ∷ parts) = cons_some (multi_part part) (multi_parts parts)

-- `UnsatisfiableMultiRange`
unfoldable pub multi_range : Bytes → Result (List Range)
unfolding has_prefix trim_prefix split multi_parts
multi_range [] = err not_found
multi_range (c ∷ s) =
    if has_prefix (c ∷ s) (codes "bytes=")
    then ok (multi_parts (split (trim_prefix (c ∷ s) (codes "bytes=")) b','))
    else err invalid_format
