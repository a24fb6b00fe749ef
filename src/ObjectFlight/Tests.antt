-- ===== src/ObjectFlight/Tests.antt =====
-- Two callers, and the theorems applied.
use tavern.Prelude.{ℕ, ◌+◌, ◌≡◌, refl, true, false, none, some, List, [], ◌∷◌, map, arith}
use tavern.Prelude.Text.{Bytes}
use tavern.ObjectFlight.{
  new_group, FlightEvent, enters, returns, enter, return_fetch, run_flights, CallerPipe,
  write_pipes, copy_body, fan_out_body,
}
use tavern.ObjectFlight.Served.{entered, served, waiting, flights, run_flights_lem}
use tavern.ObjectFlight.Fanned.{served_pipe, fan_out_body_lem}

-- callers 1 and 2 share a flight, and caller 3 leads another
abbrev events : List FlightEvent
events = enters 1 ∷ enters 2 ∷ returns true ∷ enters 3 ∷ []

two_fetches : (run_flights events new_group).fetches ≡ 2
unfolding run_flights enter return_fetch
two_fetches = refl

run_flights_lem_example :
    (waiting 2 (run_flights events new_group).flying + served 2 (run_flights events new_group).ended
      ≡ entered 2 events)
    × ((run_flights events new_group).fetches ≡ flights (run_flights events new_group))
run_flights_lem_example = run_flights_lem 2 events

abbrev pipe : ℕ → CallerPipe
pipe n = record { accepts = n; got = []; ended = none }

abbrev reads : List Bytes
reads = (7 ∷ 8 ∷ []) ∷ (9 ∷ []) ∷ []

fan_out_body_lem_example :
    fan_out_body reads true (pipe 2 ∷ pipe 5 ∷ [])
    ≡ map (served_pipe reads true) (pipe 2 ∷ pipe 5 ∷ [])
fan_out_body_lem_example =
    fan_out_body_lem reads true (pipe 2 ∷ pipe 5 ∷ []) (omega arith, (omega arith, tt))

-- A caller that closes its body after the first read ends the bodies of all others with an error.
others_fail :
    fan_out_body reads true (pipe 1 ∷ pipe 5 ∷ [])
    ≡ record { accepts = 0; got = 7 ∷ 8 ∷ []; ended = some false }
      ∷ record { accepts = 4; got = 7 ∷ 8 ∷ []; ended = some false }
      ∷ []
unfolding fan_out_body copy_body write_pipes
others_fail = refl
