-- ===== src/ObjectFlight/Served.antt =====
-- No caller of an object flight is left out (server/middleware/caching/object_flight.go).
use tavern.Prelude.{
  ℕ, ◌+◌, ◌≡◌, Bool, Option, none, some, List, [], ◌∷◌, ◌++◌, arith, if◌then◌else◌, ◌==◌, length,
}
use tavern.ObjectFlight.{
  EndedFlight, ObjectFlightGroup, new_group, FlightEvent, enters, returns, enter, return_fetch,
  run_flights,
}

-- how often a caller stands in a list, comes in events, and stands in the flights that have ended
abbrev pub count : ℕ → List ℕ → ℕ
count n [] = 0
count n (m ∷ ms) = (if m == n then 1 else 0) + count n ms

abbrev pub entered : ℕ → List FlightEvent → ℕ
entered n [] = 0
entered n (enters m ∷ es) = (if m == n then 1 else 0) + entered n es
entered n (returns b ∷ es) = entered n es

abbrev pub served : ℕ → List EndedFlight → ℕ
served n [] = 0
served n (f ∷ fs) = count n f.callers + served n fs

abbrev pub waiting : ℕ → Option (List ℕ) → ℕ
waiting n none = 0
waiting n (some ps) = count n ps

count-append : (n : ℕ) (xs ys : List ℕ) → count n (xs ++ ys) ≡ count n xs + count n ys
count-append n [] ys = omega arith
count-append n (x ∷ xs) ys = omega (arith, count-append n xs ys)

-- how many flights there were
abbrev pub in_air : Option (List ℕ) → ℕ
in_air none = 0
in_air (some ps) = 1

abbrev pub flights : ObjectFlightGroup → ℕ
flights g = length g.ended + in_air g.flying

pub record IsServing (n extra : ℕ) (g h : ObjectFlightGroup) : Type 0 where
  pub callers :
      waiting n h.flying + served n h.ended ≡ waiting n g.flying + served n g.ended + extra
  pub fetched : h.fetches + flights g ≡ g.fetches + flights h

enter-IsServing :
    (n m : ℕ) (o : Option (List ℕ)) (fs : List EndedFlight) (k : ℕ)
    → (let g : ObjectFlightGroup = record { flying = o; ended = fs; fetches = k } in
        IsServing n (if m == n then 1 else 0) g (enter m g))
unfolding enter
enter-IsServing n m none fs k = record { callers = omega arith; fetched = omega arith }
enter-IsServing n m (some ps) fs k = record {
  callers = omega (arith, count-append n ps (m ∷ []));
  fetched = omega arith;
}

return-IsServing :
    (n : ℕ) (b : Bool) (o : Option (List ℕ)) (fs : List EndedFlight) (k : ℕ)
    → (let g : ObjectFlightGroup = record { flying = o; ended = fs; fetches = k } in
        IsServing n 0 g (return_fetch b g))
unfolding return_fetch
return-IsServing n b none fs k = record { callers = omega arith; fetched = omega arith }
return-IsServing n b (some ps) fs k = record { callers = omega arith; fetched = omega arith }

run-IsServing :
    (n : ℕ) (es : List FlightEvent) (g : ObjectFlightGroup)
    → IsServing n (entered n es) g (run_flights es g)
unfolding run_flights
run-IsServing n [] g = record { callers = omega arith; fetched = omega arith }
run-IsServing n (enters m ∷ es) g =
    let first = enter-IsServing n m g.flying g.ended g.fetches in
    let rest = run-IsServing n es (enter m g) in
    record {
      callers = omega (arith, first.callers, rest.callers);
      fetched = omega (arith, first.fetched, rest.fetched);
    }
run-IsServing n (returns b ∷ es) g =
    let first = return-IsServing n b g.flying g.ended g.fetches in
    let rest = run-IsServing n es (return_fetch b g) in
    record {
      callers = omega (arith, first.callers, rest.callers);
      fetched = omega (arith, first.fetched, rest.fetched);
    }

-- Whatever the order in which callers come and fetches return: each caller stands as often as it has come in the
-- flight in the air or in the snapshot of a flight that has ended, and the fetch was called once for each flight.
pub run_flights_lem :
    (n : ℕ) (es : List FlightEvent)
    → (let g = run_flights es new_group in
        (waiting n g.flying + served n g.ended ≡ entered n es) × (g.fetches ≡ flights g))
run_flights_lem n es =
    let h = run-IsServing n es new_group in (omega (arith, h.callers), omega (arith, h.fetched))
