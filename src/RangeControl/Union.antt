-- ===== src/RangeControl/Union.antt =====
-- What the order and the union of ranges mean for the bytes that are asked for.
use tavern.Prelude.{
  ℕ, ◌+◌, ◌^◌, ◌<◌, ◌≤◌, ◌≡◌, ◌↔◌, ◌⊎◌, inl, inr, true, List, [], ◌∷◌, arith, All, Any,
}
use tavern.Prelude.Int.{ℤ, pos, negsuc, pos_part, minus_one, ◌≤ℤ◌, leb_ℤ, ◌+64◌}
use tavern.RangeControl.Request.{ByteRange}
use tavern.RangeControl.Sort.{insert, sort_ranges}
use tavern.RangeControl.Merge.{absorb, merge_from, merge_ranges}

-- The byte at `x` is asked for by the range.
pub record Covers (x : ℕ) (r : ByteRange) : Type 0 where
  pub above : r.start ≤ℤ pos x
  pub below : (r.end ≡ minus_one) ⊎ (pos x ≤ℤ r.end)

-- What `Parse` gives: a start that is not negative, and an end that is open or not below it.
pub record IsValid (r : ByteRange) : Type 0 where
  pub start_nonneg : pos 0 ≤ℤ r.start
  pub end_fits : pos_part r.end < 2 ^ 63
  pub ordered : (r.end ≡ minus_one) ⊎ (r.start ≤ℤ r.end)

abbrev pub StartsFrom : ℤ → List ByteRange → Type 0
StartsFrom a = All (λ r. a ≤ℤ r.start)

abbrev pub IsSorted : List ByteRange → Type 0
IsSorted [] = Unit
IsSorted (r ∷ rs) = StartsFrom r.start rs × IsSorted rs

-- The test of the loop, which adds 1 to an int64, is never passed by a range that starts further on.
adjacent_bound :
    (a e : ℤ)
    → pos 0 ≤ℤ a
    → pos 0 ≤ℤ e
    → pos_part e < 2 ^ 63
    → leb_ℤ a (e +64 pos 1) ≡ true
    → pos_part a ≤ pos_part e + 1
unfolding ◌+64◌
adjacent_bound (pos a) (pos e) p q h j = ground arith
adjacent_bound (pos a) (negsuc e) p q h j = absurd (omega arith)
adjacent_bound (negsuc a) e p q h j = absurd (omega arith)

-- Two ranges with no gap between them ask for what their union asks for.
absorb-Covers :
    (x : ℕ) (cur next : ByteRange)
    → IsValid cur
    → IsValid next
    → cur.start ≤ℤ next.start
    → (cur.end ≡ minus_one → ⊥)
    → pos_part next.start ≤ pos_part cur.end + 1
    → Covers x (absorb cur next) ↔ (Covers x cur ⊎ Covers x next)
unfolding absorb
absorb-Covers x cur next vc vn h o j = (ground arith, ground arith)

-- An open range asks for all that later ranges ask for.
open-Covers :
    (x : ℕ) (cur : ByteRange) (rs : List ByteRange)
    → cur.end ≡ minus_one
    → StartsFrom cur.start rs
    → Any (Covers x) rs
    → Covers x cur
open-Covers x cur [] o h m = absurd m
open-Covers x cur (r ∷ rs) o h (inl c) = ground arith
open-Covers x cur (r ∷ rs) o h (inr m) = open-Covers x cur rs o h.1 m

pub absorb-start : (cur next : ByteRange) → (absorb cur next).start ≡ cur.start
unfolding absorb
absorb-start cur next = ground arith

pub absorb-IsValid :
    (cur next : ByteRange)
    → IsValid cur
    → IsValid next
    → cur.start ≤ℤ next.start
    → IsValid (absorb cur next)
unfolding absorb
absorb-IsValid cur next vc vn h = ground arith

StartsFrom-le : (a b : ℤ) (rs : List ByteRange) → a ≤ℤ b → StartsFrom b rs → StartsFrom a rs
StartsFrom-le a b [] h s = tt
StartsFrom-le a b (r ∷ rs) h s = (omega arith, StartsFrom-le a b rs h s.1)

merge_from-Covers :
    (x : ℕ) (cur : ByteRange) (rs : List ByteRange)
    → IsValid cur
    → All IsValid rs
    → StartsFrom cur.start rs
    → IsSorted rs
    → Any (Covers x) (merge_from cur rs) ↔ (Covers x cur ⊎ Any (Covers x) rs)
unfolding merge_from
merge_from-Covers x cur [] vc vs h s = (λ m. m, λ m. m)
merge_from-Covers x cur (next ∷ rest) vc vs h s =
    let joined =
      merge_from-Covers x (absorb cur next) rest (absorb-IsValid cur next vc vs.0 h.0) vs.1
        (rw absorb-start h.1) s.1 in
    let apart = merge_from-Covers x next rest vs.0 vs.1 s.0 s.1 in
    (
      λ m. ground (
        arith,
        joined.0,
        apart.0,
        absorb-Covers x cur next vc vs.0 h.0,
        adjacent_bound next.start cur.end,
      ),
      λ m. ground (
        arith,
        joined.1,
        apart.1,
        absorb-Covers x cur next vc vs.0 h.0,
        adjacent_bound next.start cur.end,
        open-Covers x cur (next ∷ rest),
      ),
    )

Any-insert :
    (P : ByteRange → Type 0) (r : ByteRange) (rs : List ByteRange)
    → Any P (insert r rs) ↔ (P r ⊎ Any P rs)
unfolding insert
Any-insert P r [] = (λ m. m, λ m. m)
Any-insert P r (s ∷ rs) =
    (λ m. ground (arith, (Any-insert P r rs).0), λ m. ground (arith, (Any-insert P r rs).1))

-- Sorting keeps the ranges.
Any-sort_ranges : (P : ByteRange → Type 0) (rs : List ByteRange) → Any P (sort_ranges rs) ↔ Any P rs
unfolding sort_ranges
Any-sort_ranges P [] = (λ m. m, λ m. m)
Any-sort_ranges P (r ∷ rs) = (
  λ m. ground (arith, (Any-insert P r (sort_ranges rs)).0, (Any-sort_ranges P rs).0),
  λ m. ground (arith, (Any-insert P r (sort_ranges rs)).1, (Any-sort_ranges P rs).1),
)

All-insert :
    (P : ByteRange → Type 0) (r : ByteRange) (rs : List ByteRange)
    → P r
    → All P rs
    → All P (insert r rs)
unfolding insert
All-insert P r [] p ps = (p, tt)
All-insert P r (s ∷ rs) p ps = ground (arith, All-insert P r rs)

pub All-sort_ranges :
    (P : ByteRange → Type 0) (rs : List ByteRange) → All P rs → All P (sort_ranges rs)
unfolding sort_ranges
All-sort_ranges P [] ps = tt
All-sort_ranges P (r ∷ rs) ps = All-insert P r (sort_ranges rs) ps.0 (All-sort_ranges P rs ps.1)

insert-IsSorted : (r : ByteRange) (rs : List ByteRange) → IsSorted rs → IsSorted (insert r rs)
unfolding insert
insert-IsSorted r [] h = (tt, tt)
insert-IsSorted r (s ∷ rs) h = ground (
  arith,
  insert-IsSorted r rs,
  StartsFrom-le r.start s.start rs,
  All-insert (λ t. s.start ≤ℤ t.start) r rs,
)

pub sort_ranges-IsSorted : (rs : List ByteRange) → IsSorted (sort_ranges rs)
unfolding sort_ranges
sort_ranges-IsSorted [] = tt
sort_ranges-IsSorted (r ∷ rs) = insert-IsSorted r (sort_ranges rs) (sort_ranges-IsSorted rs)

merge_ranges-Covers_sorted :
    (x : ℕ) (rs : List ByteRange)
    → All IsValid rs
    → IsSorted rs
    → Any (Covers x) (merge_ranges rs) ↔ Any (Covers x) rs
unfolding merge_ranges
merge_ranges-Covers_sorted x [] v s = (λ m. m, λ m. m)
merge_ranges-Covers_sorted x (r ∷ rs) v s = merge_from-Covers x r rs v.0 v.1 s.0 s.1

-- For ranges as `Parse` gives them, `MergeRanges` after `SortRanges` asks for a byte exactly when
-- one of the given ranges asks for it.
pub merge_ranges-Covers :
    (x : ℕ) (rs : List ByteRange)
    → All IsValid rs
    → Any (Covers x) (merge_ranges (sort_ranges rs)) ↔ Any (Covers x) rs
merge_ranges-Covers x rs v =
    let merged =
      merge_ranges-Covers_sorted x (sort_ranges rs) (All-sort_ranges IsValid rs v)
        (sort_ranges-IsSorted rs) in
    let sorted = Any-sort_ranges (Covers x) rs in
    (λ m. sorted.0 (merged.0 m), λ m. merged.1 (sorted.1 m))
