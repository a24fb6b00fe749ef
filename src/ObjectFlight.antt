-- ===== src/ObjectFlight.antt =====
-- server/middleware/caching/object_flight.go: one fetch of an object for all callers of a key. A caller is
-- named by a number, which stands for its pipe. `Do` changes the map and the pipes while it holds the lock of
-- the group, so that what it does before it waits, and after its fetch, are each one step.
use tavern.Prelude.{
  ℕ, zero, suc, ◌+◌, ◌≡◌, Bool, true, false, ◌&&◌, ◌||◌, Option, none, some, List, [], ◌∷◌, ◌++◌,
  if◌then◌else◌, length, ltb, ◌==◌,
}
use tavern.Prelude.Text.{Bytes}
pub mod Served
pub mod Fanned
mod Tests

-- a flight that has ended: the callers of its snapshot, and whether the fetch has given a response
pub record EndedFlight : Type 0 where
  pub callers : List ℕ
  pub has_response : Bool

-- `ObjectFlightGroup` at one key: the callers of the flight in the map, and the flights that have ended; and how
-- often the fetch was called
pub record ObjectFlightGroup : Type 0 where
  pub flying : Option (List ℕ)
  pub ended : List EndedFlight
  pub fetches : ℕ

abbrev pub new_group : ObjectFlightGroup
new_group = record { flying = none; ended = []; fetches = 0 }

-- `Do` of a caller up to its wait: it registers its pipe, or leads a flight and calls the fetch
unfoldable pub enter : ℕ → ObjectFlightGroup → ObjectFlightGroup
enter n g = elim g.flying [
  | none ↦ record g { flying = some (n ∷ []); fetches = g.fetches + 1 }
  | some ps ↦ record g { flying = some (ps ++ n ∷ []) }
]

-- the fetch has returned, or panicked: the key is deleted, and the pipes are taken
unfoldable pub return_fetch : Bool → ObjectFlightGroup → ObjectFlightGroup
return_fetch has_response g = elim g.flying [
  | none ↦ g
  | some ps ↦ record g {
    flying = none;
    ended = record { callers = ps; has_response = has_response } ∷ g.ended;
  }
]

-- what can happen next: a caller comes, or the fetch in the air returns
pub data FlightEvent : Type 0 where
  enters : ℕ → FlightEvent
  returns : Bool → FlightEvent

abbrev pub step : FlightEvent → ObjectFlightGroup → ObjectFlightGroup
step (enters n) g = enter n g
step (returns b) g = return_fetch b g

unfoldable pub run_flights : List FlightEvent → ObjectFlightGroup → ObjectFlightGroup
run_flights [] g = g
run_flights (e ∷ es) g = run_flights es (step e g)

-- the pipe of a caller: how many writes its reader takes before it is closed, what it has got, and whether it
-- has ended, with an error or without
pub record CallerPipe : Type 0 where
  pub accepts : ℕ
  pub got : Bytes
  pub ended : Option Bool

-- `Write` of one pipe: whether there is no error
abbrev pub write_pipe : Bytes → CallerPipe → Bool × CallerPipe
write_pipe b p = elim p.accepts [
  | zero ↦ (false, p)
  | suc n ↦ (true, record p { accepts = n; got = p.got ++ b })
]

abbrev pub and_rest :
    Bool × CallerPipe → List CallerPipe → Bool × List CallerPipe → Bool × List CallerPipe
and_rest (true, p) ps (ok, qs) = (ok, p ∷ qs)
and_rest (false, p) ps rest = (false, p ∷ ps)

-- `Write` of the `MultiWriter`: the pipes in turn, up to the first error
unfoldable pub write_pipes : Bytes → List CallerPipe → Bool × List CallerPipe
write_pipes b [] = (true, [])
write_pipes b (p ∷ ps) = let rest = write_pipes b ps in and_rest (write_pipe b p) ps rest

abbrev pub copy_next :
    (List CallerPipe → Bool × List CallerPipe) → Bool × List CallerPipe → Bool × List CallerPipe
copy_next rest (true, ps) = rest ps
copy_next rest (false, ps) = (false, ps)

-- `io.Copy` of the body, given by its reads and whether it ends without an error
unfoldable pub copy_body : List Bytes → Bool → List CallerPipe → Bool × List CallerPipe
copy_body [] ok ps = (ok, ps)
copy_body (b ∷ bs) ok ps = copy_next (copy_body bs ok) (write_pipes b ps)

abbrev pub close_pipes : Bool → List CallerPipe → List CallerPipe
close_pipes ok [] = []
close_pipes ok (p ∷ ps) = record p { ended = some ok } ∷ close_pipes ok ps

abbrev pub close_after : Bool × List CallerPipe → List CallerPipe
close_after (ok, ps) = close_pipes ok ps

-- the copy of the body to all pipes, and their `Close`
unfoldable pub fan_out_body : List Bytes → Bool → List CallerPipe → List CallerPipe
fan_out_body bs ok ps = close_after (copy_body bs ok ps)
