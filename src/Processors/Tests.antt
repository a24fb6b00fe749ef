-- ===== src/Processors/Tests.antt =====
-- Processors that count how often they are asked, and the theorem applied.
use tavern.Prelude.{ℕ, ◌+◌, ◌≡◌, refl, Bool, true, false, none, some, List, [], ◌∷◌}
use tavern.Processors.Chain.{
  ok, failed, Processor, lookup_chain, look_up, pre_request_chain, fill_chain,
}
use tavern.Processors.Order.{Decided, look_up-Decided}

abbrev answers : Bool → Processor ℕ ℕ ℕ ℕ
answers b = record {
  lookup = λ c req. (ok b, c + 1);
  pre_request = λ c req. (ok (req + 10), c);
  post_request = λ c req resp. (ok resp, c);
}

abbrev refuses : Processor ℕ ℕ ℕ ℕ
refuses = record {
  lookup = λ c req. (failed true 7, c + 1);
  pre_request = λ c req. (failed req 7, c);
  post_request = λ c req resp. (failed resp 7, c);
}

abbrev three : List (Processor ℕ ℕ ℕ ℕ)
three = answers true ∷ answers false ∷ answers true ∷ []

look_up-Decided_example : Decided three 0 5 (look_up three 0 5)
look_up-Decided_example = look_up-Decided three 0 5

-- The third one is not asked.
two_asked : look_up three 0 5 ≡ record { state = 2; hit = false }
unfolding look_up lookup_chain
two_asked = refl

-- After an error, which is only logged, the request goes on as a miss.
error_misses : look_up (refuses ∷ three) 0 5 ≡ record { state = 1; hit = false }
unfolding look_up lookup_chain
error_misses = refl

-- The request that a failing processor gives is the result.
stops_there : pre_request_chain (answers true ∷ refuses ∷ answers true ∷ []) 0 5 ≡ (failed 15 7, 0)
unfolding pre_request_chain
stops_there = refl

no_nil : fill_chain (none ∷ some (answers true) ∷ none ∷ []) ≡ answers true ∷ []
unfolding fill_chain
no_nil = refl
