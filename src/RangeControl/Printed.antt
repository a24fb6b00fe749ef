-- ===== src/RangeControl/Printed.antt =====
-- `Parse` reads back what `ByteRange.String` prints.
use tavern.Prelude.{
  ℕ, ◌^◌, ◌≤◌, ◌<◌, ◌≡◌, refl, ap, ◌∙◌, ◌≢◌, false, some, [], ◌∷◌, ◌++◌, arith, All, length,
}
use tavern.Prelude.Int.{pos, minus_one}
use tavern.Prelude.Text.{Bytes, codes, has_prefix, trim_prefix, index_byte, show_ℕ}
use tavern.Prelude.Decimal.{
  IsDigit, show_ℕ-IsDigit, show_ℕ-cons, All-map, split_lacking, trim_space_id, index_byte-append,
  take-length-append, drop-length-append, parse_int-show_ℕ,
}
use tavern.RangeControl.Request.{
  ByteRange, ok, to_string, parse_end, parse_start, cut_at, parse_part, parse_parts, parse,
}

-- what is printed after the dash: nothing, or a number
abbrev IsTail : ℕ → Type 0
IsTail = IsDigit

-- the text of one range
abbrev part : ℕ → Bytes → Bytes
part a tail = show_ℕ a ++ b'-' ∷ tail

abbrev IsPart : ℕ → Type 0
IsPart c = (32 < c) × (c ≢ b',')

All-append : (s t : Bytes) → All IsPart s → All IsPart t → All IsPart (s ++ t)
All-append [] t hs ht = ht
All-append (c ∷ s) t hs ht = (hs.0, All-append s t hs.1 ht)

part-IsPart : (a : ℕ) (tail : Bytes) → All IsDigit tail → All IsPart (part a tail)
part-IsPart a tail h =
    let digit = λ (c : ℕ) (d : IsDigit c). in_part c d in
    All-append (show_ℕ a) (b'-' ∷ tail) (All-map digit (show_ℕ a) (show_ℕ-IsDigit a))
      (omega arith, All-map digit tail h)
  where
    in_part : (c : ℕ) → IsDigit c → IsPart c
    in_part c d = omega arith

no_leading_dash : (a : ℕ) (tail : Bytes) → has_prefix (part a tail) (b'-' ∷ []) ≡ false
unfolding has_prefix
no_leading_dash a tail =
    let (d, t, p) = show_ℕ-cons a in
    let digits : All IsDigit (d ∷ t) = rw p at (show_ℕ-IsDigit a) in rw p (ground arith)

dash_index : (a : ℕ) (tail : Bytes) → index_byte (part a tail) b'-' ≡ some (length (show_ℕ a))
dash_index a tail =
    index_byte-append (show_ℕ a) tail b'-' (All-map not_dash (show_ℕ a) (show_ℕ-IsDigit a))
  where
    not_dash : (c : ℕ) → IsDigit c → c ≢ b'-'
    not_dash c d = omega arith

parse_part-part :
    (a : ℕ) (tail : Bytes)
    → a < 2 ^ 63
    → All IsDigit tail
    → parse_part (part a tail) ≡ parse_end (pos a) tail
unfolding parse_part parse_start cut_at
parse_part-part a tail h d =
    rw
      (
        trim_space_id (part a tail) (All-map above (part a tail) (part-IsPart a tail d)),
        no_leading_dash a tail,
        dash_index a tail,
        take-length-append (show_ℕ a) (b'-' ∷ tail),
        drop-length-append (show_ℕ a) tail b'-',
      )
      (ground (arith, parse_int-show_ℕ a h))
  where
    above : (c : ℕ) → IsPart c → 32 < c
    above c p = p.0

parse-part :
    (a : ℕ) (tail : Bytes) (r : ByteRange)
    → a < 2 ^ 63
    → All IsDigit tail
    → parse_end (pos a) tail ≡ ok r
    → parse (codes "bytes=" ++ part a tail) ≡ ok (r ∷ [])
unfolding parse parse_parts has_prefix trim_prefix
parse-part a tail r h d e = rw (
  split_lacking (part a tail) b',' (All-map comma (part a tail) (part-IsPart a tail d)),
  parse_part-part a tail h d,
  e,
)
  where
    comma : (c : ℕ) → IsPart c → c ≢ b','
    comma c p = p.1

printed :
    (a b : ℕ)
    → a ≤ b
    → to_string (record { start = pos a; end = pos b }) ≡ codes "bytes=" ++ part a (show_ℕ b)
unfolding to_string
printed a b h = ground arith

printed_open :
    (a : ℕ)
    → 0 < a
    → to_string (record { start = pos a; end = minus_one }) ≡ codes "bytes=" ++ part a []
unfolding to_string
printed_open a h = ground arith

parse_end-show_ℕ :
    (a b : ℕ)
    → a ≤ b
    → b < 2 ^ 63
    → parse_end (pos a) (show_ℕ b) ≡ ok (record { start = pos a; end = pos b })
unfolding parse_end
parse_end-show_ℕ a b h k =
    let (d, t, p) = show_ℕ-cons b in
    let read = rw p at (parse_int-show_ℕ b k) in rw p (ground (arith, read))

-- `Parse` reads the text that `ByteRange.String` prints of a range from `a` to `b` as that range,
-- for 0 ≤ a ≤ b < 2^63.
pub parse-to_string :
    (a b : ℕ)
    → a ≤ b
    → b < 2 ^ 63
    → parse (to_string (record { start = pos a; end = pos b }))
      ≡ ok (record { start = pos a; end = pos b } ∷ [])
parse-to_string a b h k =
    ap parse (printed a b h)
    ∙ parse-part a (show_ℕ b) _ (omega arith) (show_ℕ-IsDigit b) (parse_end-show_ℕ a b h k)

-- `Parse` reads the text that `ByteRange.String` prints of the open range from `a` as that range,
-- for 0 < a < 2^63. (For a = 0 see the tests.)
pub parse-to_string_open :
    (a : ℕ)
    → 0 < a
    → a < 2 ^ 63
    → parse (to_string (record { start = pos a; end = minus_one }))
      ≡ ok (record { start = pos a; end = minus_one } ∷ [])
unfolding parse_end
parse-to_string_open a h k = ap parse (printed_open a h) ∙ parse-part a [] _ k tt refl
