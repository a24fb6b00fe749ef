-- ===== src/ChunkFlight/Tests.antt =====
-- A flight of two callers and one that comes late, and the theorems applied.
use mathlib.Core.List.{mem-cons_self}
use tavern.Prelude.{ℕ, ◌+◌, ◌≡◌, ◌⊎◌, refl, true, false, none, some, [], ◌∷◌, arith, subst}
use tavern.Prelude.Text.{Bytes}
use tavern.Prelude.Slices.{slice}
use tavern.Readers.Stream.{read_all, discard}
use tavern.Readers.Window.{RangeReader, window_reader, range_reader, read_range}
use tavern.Readers.Sample.{slow, sure, Left, slow-Delivers, sizes, sizes-All}
use tavern.ChunkFlight.Flight.{
  ChunkRange, ChunkCall, lead, join_flight, compute, remove_key, caller, widen_all, copied, Run,
  here, next, joins, removes, fetches, computes,
}
use tavern.ChunkFlight.Shared.{caller_lem}

abbrev bytes_between : ℕ → ℕ → ChunkRange
bytes_between a b = record { from_byte = a; to_byte = b }

-- the object
abbrev letters : Bytes
letters = 97 ∷ 98 ∷ 99 ∷ 100 ∷ 101 ∷ []

-- what the origin gives for the union of two callers
abbrev fetched : Bytes
fetched = 98 ∷ 99 ∷ 100 ∷ []

abbrev two_callers : ChunkCall
two_callers = record (lead (bytes_between 1 2)) {
  ranges = bytes_between 1 2 ∷ bytes_between 3 3 ∷ [];
}

-- The flight of the two callers, up to the end of the copy.
abbrev shared : ChunkCall
shared = record {
  ranges = bytes_between 1 2 ∷ bytes_between 3 3 ∷ [];
  union = some (bytes_between 1 3);
  in_map = false;
  err = false;
  pipes = copied fetched true;
}

shared-Run : Run (compute two_callers) shared
unfolding lead compute widen_all
shared-Run = next (next here (removes (λ e. absurd (cc e)))) (fetches fetched true refl refl)

caller_lem_example :
    ((false ≡ true) × (caller false fetched (bytes_between 1 2) shared ≡ some none))
    ⊎ ((w : RangeReader Bytes) × (caller false fetched (bytes_between 1 2) shared ≡ some (some w))
        × (read_all (window_reader slow 9) sizes w ≡ some (98 ∷ 99 ∷ [])))
unfolding slice
caller_lem_example =
    caller_lem slow 9 sure Left slow-Delivers letters two_callers shared (bytes_between 1 2) false
      fetched 3 sizes ((omega arith, omega arith), ((omega arith, omega arith), tt)) mem-cons_self
      (omega arith) shared-Run piped refl (omega arith) sizes-All (omega arith)
  where
    piped :
        (u : ChunkRange)
        → some (bytes_between 1 3) ≡ some u
        → Left fetched 3 (slice letters u.from_byte (u.to_byte + 1))
    piped u e =
        let f : bytes_between 1 3 ≡ u = cc e in
        subst (λ x. Left fetched 3 (slice letters x.from_byte (x.to_byte + 1))) f
          (refl, omega arith)

-- No lock is held from the computation of the union to the removal of the key, so that a waiter may join_flight
-- in between.
abbrev late : ChunkCall
late = remove_key (join_flight (bytes_between 3 4) (compute (lead (bytes_between 0 1))))

late-Run : Run (lead (bytes_between 0 1)) late
unfolding lead compute join_flight
late-Run =
    next (next (next here (computes refl)) (joins (bytes_between 3 4) refl))
      (removes (λ e. absurd (cc e)))

-- The window of this waiter lies behind what the leader fetches: it gets the end of the body, without a
-- byte and without an error.
late-caller :
    (w : RangeReader Bytes) × (caller true (97 ∷ 98 ∷ []) (bytes_between 3 4) late ≡ some (some w))
    × (read_all (window_reader slow 9) sizes w ≡ some [])
unfolding lead compute join_flight caller widen_all range_reader read_all read_range discard
late-caller = (
  record {
    reader = 97 ∷ 98 ∷ [];
    new_start = 0;
    new_end = 1;
    raw_start = 3;
    raw_end = 4;
    offset = 0;
  },
  refl,
  refl,
)
