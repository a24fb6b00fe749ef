-- ===== src/ChunkFlight/Flight.antt =====
-- `ChunkFlightGroup.Do`: the state of one flight, and the steps that its goroutines take on it, in any
-- order that the locks allow. The pipe of each caller stands in the same place as its range.
use tavern.Prelude.{
  ℕ, ◌≡◌, ◌≢◌, Bool, true, false, Option, none, some, List, [], ◌∷◌, ◌++◌, if◌then◌else◌, ltb, ◌&&◌,
}
use tavern.Prelude.Text.{Bytes}
use tavern.Readers.Window.{RangeReader, range_reader}

pub record ChunkRange : Type 0 where
  pub from_byte : ℕ
  pub to_byte : ℕ

-- what the background goroutine has done to the pipes
pub data Fanned : Type 0 where
  unwritten : Fanned
  closed_with_error : Fanned
  -- the bytes that went to every pipe, and whether the copy ended without an error
  copied : Bytes → Bool → Fanned

pub record ChunkCall : Type 0 where
  pub ranges : List ChunkRange
  -- `unionFrom` and `unionTo`, once the group that waits for them is released
  pub union : Option ChunkRange
  -- whether the key is in the map of the group
  pub in_map : Bool
  pub err : Bool
  pub pipes : Fanned

-- the leader, which finds no flight under its key
unfoldable pub lead : ChunkRange → ChunkCall
lead r = record { ranges = r ∷ []; union = none; in_map = true; err = false; pipes = unwritten }

-- a waiter, which finds the flight in the map
unfoldable pub join_flight : ChunkRange → ChunkCall → ChunkCall
join_flight r c = record c { ranges = c.ranges ++ r ∷ [] }

-- one round of the loop over the other ranges
abbrev pub widen : ChunkRange → ChunkRange → ChunkRange
widen u r = record {
  from_byte = if ltb r.from_byte u.from_byte then r.from_byte else u.from_byte;
  to_byte = if ltb u.to_byte r.to_byte then r.to_byte else u.to_byte;
}

unfoldable pub widen_all : ChunkRange → List ChunkRange → ChunkRange
widen_all u [] = u
widen_all u (r ∷ rs) = widen_all (widen u r) rs

-- the union of the ranges; a flight has at least one
abbrev pub union_of : List ChunkRange → Option ChunkRange
union_of [] = none
union_of (r ∷ rs) = some (widen_all r rs)

unfoldable pub compute : ChunkCall → ChunkCall
compute c = record c { union = union_of c.ranges }

abbrev pub remove_key : ChunkCall → ChunkCall
remove_key c = record c { in_map = false }

-- `fn` fails or panics, and every pipe is closed with the error
abbrev pub fail : ChunkCall → ChunkCall
fail c = record c { err = true; pipes = closed_with_error }

-- the body is copied to every pipe
abbrev pub fan_out : Bytes → Bool → ChunkCall → ChunkCall
fan_out b ok c = record c { pipes = copied b ok }

-- What may happen to a flight, in the order of the source. The leader removes the key after it has
-- computed the union, and both take their own locks, so that a waiter may join_flight in between.
pub data Step (c : ChunkCall) : ChunkCall → Type 0 where
  joins : (r : ChunkRange) → c.in_map ≡ true → Step c (join_flight r c)
  computes : c.union ≡ none → Step c (compute c)
  removes : c.union ≢ none → Step c (remove_key c)
  fails : c.in_map ≡ false → c.pipes ≡ unwritten → Step c (fail c)
  fetches :
      (b : Bytes) (ok : Bool) → c.in_map ≡ false → c.pipes ≡ unwritten → Step c (fan_out b ok c)

pub data Run (c : ChunkCall) : ChunkCall → Type 0 where
  here : Run c c
  next : {d e : ChunkCall} → Run c d → Step d e → Run c e

-- What `Do` returns to the caller that registered the range: an error where the waiter sees that `fn`
-- failed, and else the window of its pipe. Before the union is there a waiter waits, which is no result.
-- The leader returns before `fn` is called, and sees no error.
unfoldable pub caller :
    {S : Type 0} → Bool → S → ChunkRange → ChunkCall → Option (Option (RangeReader S))
caller waits s q c = elim (c.union) [
  | none ↦ none
  | some u ↦
      if waits && c.err
      then some none
      else some (some (range_reader s u.from_byte u.to_byte q.from_byte q.to_byte))
]
