-- ===== src/RangeControl/Sort.antt =====
-- pkg/x/http/rangecontrol/request_range.go: `SortRanges`. Its comparison decides between any two
-- ranges that differ, so every sort gives one list; the model sorts by insertion.
use tavern.Prelude.{Bool, true, false, List, [], ◌∷◌, if◌then◌else◌, not}
use tavern.Prelude.Int.{ltb_ℤ, eqb_ℤ, minus_one}
use tavern.RangeControl.Request.{ByteRange}

-- the comparison that is given to `sort.Slice`
unfoldable pub less : ByteRange → ByteRange → Bool
less a b =
    if not (eqb_ℤ a.start b.start)
    then ltb_ℤ a.start b.start
    else if eqb_ℤ a.end minus_one
    then false
    else if eqb_ℤ b.end minus_one
    then true
    else ltb_ℤ a.end b.end

unfoldable pub insert : ByteRange → List ByteRange → List ByteRange
unfolding less
insert r [] = r ∷ []
insert r (s ∷ rs) = if less s r then s ∷ insert r rs else r ∷ s ∷ rs

unfoldable pub sort_ranges : List ByteRange → List ByteRange
unfolding insert
sort_ranges [] = []
sort_ranges (r ∷ rs) = insert r (sort_ranges rs)
