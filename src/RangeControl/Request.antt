-- ===== src/RangeControl/Request.antt =====
-- pkg/x/http/rangecontrol/request_range.go: `ByteRange` and `Parse`. Text is a list of ASCII bytes.
use tavern.Prelude.{
  ℕ, ◌+◌, ◌-◌, ◌&&◌, ◌||◌, Option, none, some, List, [], ◌∷◌, ◌++◌, ◌==◌, if◌then◌else◌, take, drop,
}
use tavern.Prelude.Int.{ℤ, pos, ltb_ℤ, leb_ℤ, eqb_ℤ, minus_one, of_bits64, ◌+64◌, ◌-64◌}
use tavern.Prelude.Text.{
  Bytes, codes, has_prefix, trim_prefix, index_byte, split, trim_space, parse_int, nil, show_ℕ,
  show_ℤ,
}

-- `end` is inclusive; -1 is an open end (100-).
pub record ByteRange : Type 0 where
  pub start : ℤ
  pub end : ℤ

pub data RangeError : Type 0 where
  invalid_range : RangeError
  open_ended_format : RangeError

pub data Result {ℓ} (A : Type ℓ) : Type ℓ where
  ok : A → Result A
  err : RangeError → Result A

infixl 5 ◌>>=◌
abbrev pub ◌>>=◌ {ℓ κ} : {A : Type ℓ} {B : Type κ} → Result A → (A → Result B) → Result B
ok a >>= f = f a
err e >>= f = err e

-- `ByteRange.Length`
unfoldable pub range_length : ByteRange → ℤ
unfolding ◌+64◌ ◌-64◌
range_length r = r.end -64 r.start +64 pos 1

-- `ByteRange.String`
unfoldable pub to_string : ByteRange → Bytes
unfolding show_ℤ
to_string r =
    if leb_ℤ r.end (pos 0) && ltb_ℤ (pos 0) r.start
    then codes "bytes=" ++ show_ℤ r.start ++ b'-' ∷ []
    else codes "bytes=" ++ show_ℤ r.start ++ b'-' ∷ show_ℤ r.end

-- `ByteRange.ContentRange`
unfoldable pub content_range : ByteRange → ℕ → Bytes
unfolding show_ℤ
content_range r total_size =
    if total_size == 0
    then codes "bytes " ++ show_ℤ r.start ++ b'-' ∷ show_ℤ r.end ++ codes "/*"
    else if eqb_ℤ r.end minus_one || leb_ℤ (of_bits64 total_size) r.end
    then codes "bytes "
      ++ show_ℤ r.start
      ++ b'-' ∷ show_ℕ (total_size - 1)
      ++ b'/' ∷ show_ℕ total_size
    else codes "bytes " ++ show_ℤ r.start ++ b'-' ∷ show_ℤ r.end ++ b'/' ∷ show_ℕ total_size

-- the end of one part, after its start was read
unfoldable pub parse_end : ℤ → Bytes → Result ByteRange
parse_end start [] = ok (record { start = start; end = minus_one })
parse_end start (c ∷ s) =
    let (end, e) = parse_int (c ∷ s) in
    elim e [
      | nil ↦
          if ltb_ℤ end start
          then err open_ended_format
          else ok (record { start = start; end = end })
      | _ ↦ err open_ended_format
    ]

unfoldable pub parse_start : Bytes → Bytes → Result ByteRange
parse_start start_str end_str =
    let (start, e) = parse_int start_str in
    elim e [
      | nil ↦ if ltb_ℤ start (pos 0) then err invalid_range else parse_end start end_str
      | _ ↦ err invalid_range
    ]

unfoldable pub cut_at : Bytes → Option ℕ → Result ByteRange
cut_at part none = err invalid_range
cut_at part (some dash) = parse_start (take dash part) (drop (dash + 1) part)

-- the body of the loop over the parts
unfoldable pub parse_part : Bytes → Result ByteRange
unfolding has_prefix index_byte trim_space cut_at parse_start parse_end
parse_part raw =
    let part = trim_space raw in
    if has_prefix part (b'-' ∷ []) then err invalid_range else cut_at part (index_byte part b'-')

unfoldable pub parse_parts : List Bytes → Result (List ByteRange)
unfolding parse_part
parse_parts [] = ok []
parse_parts (part ∷ parts) = do r ← parse_part part; rs ← parse_parts parts; ok (r ∷ rs)

-- `Parse`; the empty header gives the nil slice
unfoldable pub parse : Bytes → Result (List ByteRange)
unfolding parse_parts has_prefix trim_prefix split
parse [] = ok []
parse (c ∷ s) =
    if has_prefix (c ∷ s) (codes "bytes=")
    then parse_parts (split (trim_prefix (c ∷ s) (codes "bytes=")) b',')
    else err invalid_range
