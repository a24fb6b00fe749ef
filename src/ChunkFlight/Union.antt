-- ===== src/ChunkFlight/Union.antt =====
-- The union of the ranges of a flight, and what later steps leave of it.
use tavern.Prelude.{◌≤◌, ◌≡◌, refl, some, List, [], ◌∷◌, arith, All}
use tavern.ChunkFlight.Flight.{
  ChunkRange, ChunkCall, widen, widen_all, union_of, compute, join_flight, joins, computes, removes,
  fails, fetches, Run, here, next,
}

abbrev pub Inside : ChunkRange → ChunkRange → Type 0
Inside u q = (u.from_byte ≤ q.from_byte) × (q.to_byte ≤ u.to_byte)

widen_all-grows : (u : ChunkRange) (rs : List ChunkRange) → Inside (widen_all u rs) u
unfolding widen_all
widen_all-grows u [] = (omega arith, omega arith)
widen_all-grows u (r ∷ rs) =
    let (lo, hi) = widen_all-grows (widen u r) rs in (ground arith, ground arith)

widen_all-All : (u : ChunkRange) (rs : List ChunkRange) → All (Inside (widen_all u rs)) rs
unfolding widen_all
widen_all-All u [] = tt
widen_all-All u (r ∷ rs) =
    let (lo, hi) = widen_all-grows (widen u r) rs in
    ((ground arith, ground arith), widen_all-All (widen u r) rs)

-- The union goes no further than the ranges do.
widen_all-least :
    (u v : ChunkRange) (rs : List ChunkRange)
    → Inside v u
    → All (Inside v) rs
    → Inside v (widen_all u rs)
unfolding widen_all
widen_all-least u v [] h a = h
widen_all-least u v (r ∷ rs) (lo, hi) ((lo', hi'), a) =
    widen_all-least (widen u r) v rs (ground arith, ground arith) a

-- The union of the ranges of a flight holds each of them, and every range that holds each of them holds
-- the union.
pub union_of_lem :
    (r : ChunkRange) (rs : List ChunkRange)
    → (u : ChunkRange) × (union_of (r ∷ rs) ≡ some u)
      × All (Inside u) (r ∷ rs)
      × ((v : ChunkRange) → All (Inside v) (r ∷ rs) → Inside v u)
union_of_lem r rs = (
  widen_all r rs,
  refl,
  (widen_all-grows r rs, widen_all-All r rs),
  λ v (h, a). widen_all-least r v rs h a,
)

-- The union never changes once it is there.
pub Run-union : {c d : ChunkCall} (u : ChunkRange) → Run c d → c.union ≡ some u → d.union ≡ some u
unfolding join_flight compute
Run-union u here e = e
Run-union u (next r (joins q m)) e = let ih = Run-union u r e in ih
Run-union u (next r (computes n)) e = let ih = Run-union u r e in absurd (cc (ih, n))
Run-union u (next r (removes n)) e = Run-union u r e
Run-union u (next r (fails m o)) e = Run-union u r e
Run-union u (next r (fetches b ok m o)) e = Run-union u r e
