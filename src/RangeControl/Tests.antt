-- ===== src/RangeControl/Tests.antt =====
-- The examples of request_range_test.go and of the theorems.
use tavern.Prelude.{ℕ, ◌≡◌, refl, ◌↔◌, false, some, List, [], ◌∷◌, arith, All, Any}
use tavern.Prelude.Int.{pos, minus_one}
use tavern.Prelude.Text.{codes, parse_int, bytes_eq}
use tavern.RangeControl.Request.{
  ByteRange, ok, err, open_ended_format, to_string, content_range, parse,
}
use tavern.RangeControl.Sort.{sort_ranges}
use tavern.RangeControl.Merge.{merge_ranges}
use tavern.RangeControl.Union.{Covers, IsValid, merge_ranges-Covers}
use tavern.RangeControl.Gaps.{HasGaps, merge_ranges-HasGaps}
use tavern.RangeControl.Printed.{parse-to_string}
use tavern.RangeControl.Response.{
  ContentRange, parse_content_range, range_value, satisfied_range, range_resp,
}
use tavern.RangeControl.Exchange.{parse_content_range-content_range}

abbrev range : ℕ → ℕ → ByteRange
range a b = record { start = pos a; end = pos b }

abbrev open_from : ℕ → ByteRange
open_from a = record { start = pos a; end = minus_one }

abbrev three : List ByteRange
three = range 50 60 ∷ range 0 10 ∷ range 11 20 ∷ []

three_parsed : parse (codes "bytes=50-60, 0-10,11-20") ≡ ok three
unfolding parse parse_int
three_parsed = refl

three_merged : merge_ranges (sort_ranges three) ≡ range 0 20 ∷ range 50 60 ∷ []
unfolding merge_ranges sort_ranges
three_merged = refl

-- The text of the range from 0 with an open end is refused.
open_from_zero : parse (to_string (open_from 0)) ≡ err open_ended_format
unfolding parse to_string parse_int
open_from_zero = refl

-- At the largest int64 two ranges that overlap are not merged.
overflow_apart :
    merge_ranges (range 0 9223372036854775807 ∷ range 5 10 ∷ [])
    ≡ range 0 9223372036854775807 ∷ range 5 10 ∷ []
unfolding merge_ranges
overflow_apart = refl

three-IsValid : All IsValid three
three-IsValid = ground arith

merge_ranges-Covers_example :
    Any (Covers 55) (merge_ranges (sort_ranges three)) ↔ Any (Covers 55) three
merge_ranges-Covers_example = merge_ranges-Covers 55 three three-IsValid

merge_ranges-HasGaps_example : HasGaps (merge_ranges (sort_ranges three))
merge_ranges-HasGaps_example = merge_ranges-HasGaps three three-IsValid (ground arith)

parse-to_string_example : parse (to_string (range 7 1500)) ≡ ok (range 7 1500 ∷ [])
parse-to_string_example = parse-to_string 7 1500 (omega arith) (omega arith)

abbrev reply : ContentRange
reply = record { start = pos 0; end = pos 99; size = pos 1000; unsatisfied = false }

reply_parsed : parse_content_range (codes "bytes 0-99/1000") ≡ some reply
unfolding parse_content_range range_value satisfied_range range_resp parse_int bytes_eq
reply_parsed = refl

parse_content_range-content_range_example :
    parse_content_range (content_range (open_from 200) 1000)
    ≡ some (record { start = pos 200; end = pos 999; size = pos 1000; unsatisfied = false })
parse_content_range-content_range_example =
    parse_content_range-content_range (open_from 200) 1000 (ground arith) (omega arith)
      (omega arith)
