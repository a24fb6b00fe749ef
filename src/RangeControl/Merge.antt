-- ===== src/RangeControl/Merge.antt =====
-- pkg/x/http/rangecontrol/request_range.go: `MergeRanges`.
use tavern.Prelude.{List, [], ◌∷◌, ◌||◌, if◌then◌else◌}
use tavern.Prelude.Int.{pos, ltb_ℤ, leb_ℤ, eqb_ℤ, minus_one, ◌+64◌}
use tavern.RangeControl.Request.{ByteRange}

-- the merged range, when `next` overlaps `cur` or is adjacent to it
unfoldable pub absorb : ByteRange → ByteRange → ByteRange
absorb cur next =
    if eqb_ℤ next.end minus_one || ltb_ℤ cur.end next.end
    then record cur { end = next.end }
    else cur

-- the loop; what is appended to `merged` stands in front of what the later rounds give
unfoldable pub merge_from : ByteRange → List ByteRange → List ByteRange
unfolding absorb ◌+64◌
merge_from cur [] = cur ∷ []
merge_from cur (next ∷ rest) =
    let joined = merge_from (absorb cur next) rest in
    let apart = cur ∷ merge_from next rest in
    if eqb_ℤ cur.end minus_one
    then cur ∷ []
    else if leb_ℤ next.start (cur.end +64 pos 1)
    then joined
    else apart

unfoldable pub merge_ranges : List ByteRange → List ByteRange
unfolding merge_from
merge_ranges [] = []
merge_ranges (r ∷ rs) = merge_from r rs
