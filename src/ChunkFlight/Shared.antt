-- ===== src/ChunkFlight/Shared.antt =====
-- What each caller reads from the fetch that it shares.
use mathlib.Core.List.{Mem, mem-cons, not-mem-nil}
use mathlib.Core.Logic.Or
use native.Mathlib.Bridge.{le_prop}
use tavern.Prelude.{
  ℕ, ◌+◌, ◌-◌, ◌≤◌, ◌<◌, ◌≡◌, ◌⊎◌, inl, inr, refl, Bool, true, false, ◌&&◌, none, some, List, [],
  ◌∷◌, arith, ap, ◌∙◌, All, length, Bool-cases,
}
use tavern.Prelude.Text.{Bytes}
use tavern.Prelude.Slices.{slice, length-slice, slice-slice}
use tavern.Readers.Stream.{Reader, Mode, Delivers, read_all}
use tavern.Readers.Windowed.{read_all-range_reader}
use tavern.Readers.Window.{RangeReader, range_reader, window_reader}
use tavern.ChunkFlight.Flight.{ChunkRange, ChunkCall, union_of, compute, Run, caller}
use tavern.ChunkFlight.Union.{Inside, union_of_lem, Run-union}

-- The range lies in the object.
abbrev pub Fits : Bytes → ChunkRange → Type 0
Fits obj q = (q.from_byte ≤ q.to_byte) × (q.to_byte < length obj)

Inside-Mem : (u q : ChunkRange) (rs : List ChunkRange) → All (Inside u) rs → Mem q rs → Inside u q
Inside-Mem u q [] a m = absurd (not-mem-nil m)
Inside-Mem u q (r ∷ rs) (h, a) m = (
  Or.elim le_prop (mem-cons.0 m) (λ e. rw e (h.0)) (λ m'. (Inside-Mem u q rs a m').0),
  Or.elim le_prop (mem-cons.0 m) (λ e. rw e (h.1)) (λ m'. (Inside-Mem u q rs a m').1),
)

All-Inside :
    (obj : Bytes) (rs : List ChunkRange)
    → All (Fits obj) rs
    → All (Inside (record { from_byte = 0; to_byte = length obj - 1 })) rs
All-Inside obj [] a = tt
All-Inside obj (r ∷ rs) ((h, h'), a) = ((omega arith, omega arith), All-Inside obj rs a)

-- The union that the leader computes holds each range that is there, and lies in the object if they do.
compute_union :
    (obj : Bytes) (c : ChunkCall) (q : ChunkRange)
    → Mem q c.ranges
    → All (Fits obj) c.ranges
    → (u : ChunkRange) × ((compute c).union ≡ some u) × Inside u q × (u.to_byte < length obj)
unfolding compute
compute_union obj c q m a = of_ranges c.ranges m a
  where
    of_ranges :
        (rs : List ChunkRange)
        → Mem q rs
        → All (Fits obj) rs
        → (u : ChunkRange) × (union_of rs ≡ some u) × Inside u q × (u.to_byte < length obj)
    of_ranges [] n b = absurd (not-mem-nil n)
    of_ranges (r ∷ rs) n ((h, h'), b) =
        let (u, e, inside, least) = union_of_lem r rs in
        let (lo, hi) =
          least (record { from_byte = 0; to_byte = length obj - 1 })
            (All-Inside obj (r ∷ rs) ((h, h'), b)) in
        (u, e, Inside-Mem u q (r ∷ rs) inside n, omega arith)

module _ {S : Type 0} (r : Reader S) (rounds : ℕ) (mode : Mode) (P : S → ℕ → Bytes → Type 0)
    (law : Delivers r mode P) where
  -- A caller that registered a range of the object before the leader computed the union gets, whatever
  -- happens to the flight afterwards, either the error of the flight (a waiter, if there is one) or a
  -- reader. If its pipe gives the bytes of the union, this reader gives just the bytes of its range,
  -- read with buffers of any sizes above 0, of which there are enough.
  pub caller_lem :
      (obj : Bytes) (c d : ChunkCall) (q : ChunkRange) (waits : Bool) (s : S) (m : ℕ) (ks : List ℕ)
      → All (Fits obj) c.ranges
      → Mem q c.ranges
      → q.from_byte ≤ q.to_byte
      → Run (compute c) d
      → ((u : ChunkRange) → d.union ≡ some u → P s m (slice obj u.from_byte (u.to_byte + 1)))
      → mode.may_fail ≡ false
      → m < rounds
      → All (λ k. 0 < k) ks
      → m < length ks
      → ((waits && d.err ≡ true) × (caller waits s q d ≡ some none))
        ⊎ ((w : RangeReader S) × (caller waits s q d ≡ some (some w))
            × (read_all (window_reader r rounds) ks w
                ≡ some (slice obj q.from_byte (q.to_byte + 1))))
  unfolding caller
  caller_lem obj c d q waits s m ks a n h run piped sure t pos l =
      let (u, e, (lo, hi), inside) = compute_union obj c q n a in
      let there = Run-union u run e in
      elim (Bool-cases (waits && d.err)) [
        | inl failed ↦ inl (failed, rw (there, failed) refl)
        | inr fine ↦ inr (
          range_reader s u.from_byte u.to_byte q.from_byte q.to_byte,
          rw (there, fine) refl,
          read_all-range_reader r rounds mode P law s m (slice obj u.from_byte (u.to_byte + 1))
                u.from_byte u.to_byte q.from_byte q.to_byte ks sure (piped u there) t
                (omega (arith, length-slice obj u.from_byte (u.to_byte + 1) (omega arith))) lo h pos
                l
              ∙ ap some (
                  slice-slice obj u.from_byte (u.to_byte + 1) q.from_byte (q.to_byte + 1) lo
                    (omega arith) (omega arith)),
        )
      ]
