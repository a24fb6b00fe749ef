-- ===== src/RangeControl/Gaps.antt =====
-- Why no two merged ranges could be joined further.
use tavern.Prelude.{◌+◌, ◌-◌, ◌^◌, ◌<◌, ◌≡◌, false, List, [], ◌∷◌, arith, All}
use tavern.Prelude.Int.{pos, pos_part, minus_one, leb_ℤ, eqb_ℤ, ◌+64◌}
use tavern.RangeControl.Request.{ByteRange}
use tavern.RangeControl.Sort.{sort_ranges}
use tavern.RangeControl.Merge.{absorb, merge_from, merge_ranges}
use tavern.RangeControl.Union.{
  IsValid, IsSorted, StartsFrom, absorb-start, absorb-IsValid, All-sort_ranges,
  sort_ranges-IsSorted,
}

-- The end is not the largest int64, to which the loop cannot add 1.
abbrev pub IsSmall : ByteRange → Type 0
IsSmall r = pos_part r.end < 2 ^ 63 - 1

-- A byte lies between the end of the first range and the start of the second.
pub record Gap (a b : ByteRange) : Type 0 where
  pub closed : a.end ≡ minus_one → ⊥
  pub apart : pos_part a.end + 1 < pos_part b.start

abbrev GapBefore : ByteRange → List ByteRange → Type 0
GapBefore r [] = Unit
GapBefore r (s ∷ rs) = Gap r s

abbrev pub HasGaps : List ByteRange → Type 0
HasGaps [] = Unit
HasGaps (r ∷ rs) = GapBefore r rs × HasGaps rs

merge_from-GapBefore :
    (prev cur : ByteRange) (rs : List ByteRange) → Gap prev cur → GapBefore prev (merge_from cur rs)
unfolding merge_from
merge_from-GapBefore prev cur [] g = g
merge_from-GapBefore prev cur (next ∷ rest) g =
    ground (arith, merge_from-GapBefore prev (absorb cur next) rest, absorb-start cur next)

absorb-IsSmall : (cur next : ByteRange) → IsSmall cur → IsSmall next → IsSmall (absorb cur next)
unfolding absorb
absorb-IsSmall cur next a b = ground arith

-- What fails the test of the loop starts at least two bytes after the end.
apart-Gap :
    (cur next : ByteRange)
    → IsValid cur
    → IsValid next
    → IsSmall cur
    → eqb_ℤ cur.end minus_one ≡ false
    → leb_ℤ next.start (cur.end +64 pos 1) ≡ false
    → Gap cur next
unfolding ◌+64◌
apart-Gap cur next vc vn c o j = ground arith

merge_from-HasGaps :
    (cur : ByteRange) (rs : List ByteRange)
    → IsValid cur
    → All IsValid rs
    → IsSmall cur
    → All IsSmall rs
    → StartsFrom cur.start rs
    → IsSorted rs
    → HasGaps (merge_from cur rs)
unfolding merge_from
merge_from-HasGaps cur [] vc vs c cs h s = (tt, tt)
merge_from-HasGaps cur (next ∷ rest) vc vs c cs h s =
    let joined =
      merge_from-HasGaps (absorb cur next) rest (absorb-IsValid cur next vc vs.0 h.0) vs.1
        (absorb-IsSmall cur next c cs.0) cs.1 (rw absorb-start h.1) s.1 in
    let apart = merge_from-HasGaps next rest vs.0 vs.1 cs.0 cs.1 s.0 s.1 in
    ground (arith, joined, apart, apart-Gap cur next vc vs.0 c, merge_from-GapBefore cur next rest)

merge_ranges-HasGaps_sorted :
    (rs : List ByteRange)
    → All IsValid rs
    → All IsSmall rs
    → IsSorted rs
    → HasGaps (merge_ranges rs)
unfolding merge_ranges
merge_ranges-HasGaps_sorted [] v c s = tt
merge_ranges-HasGaps_sorted (r ∷ rs) v c s = merge_from-HasGaps r rs v.0 v.1 c.0 c.1 s.0 s.1

-- For ranges as `Parse` gives them, none of which ends at the largest int64, `MergeRanges` after
-- `SortRanges` leaves at least one byte between each range and the next one.
pub merge_ranges-HasGaps :
    (rs : List ByteRange)
    → All IsValid rs
    → All IsSmall rs
    → HasGaps (merge_ranges (sort_ranges rs))
merge_ranges-HasGaps rs v c =
    merge_ranges-HasGaps_sorted (sort_ranges rs) (All-sort_ranges IsValid rs v)
      (All-sort_ranges IsSmall rs c) (sort_ranges-IsSorted rs)
