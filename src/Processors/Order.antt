-- ===== src/Processors/Order.antt =====
-- The processors are asked in order, up to the first that does not hit.
use tavern.Prelude.{◌≡◌, ◌⊎◌, inl, inr, refl, ap, Bool, true, false, List, [], ◌∷◌, ◌++◌}
use tavern.Processors.Chain.{
  Result, ok, failed, Processor, Looked, looked_up, lookup_chain, hit_of, look_up,
}

module _ {C E Req Resp : Type 0} where
  -- Each processor hits, in the state that the one before has left.
  pub data AllHit (req : Req) : List (Processor C E Req Resp) → C → C → Type 0 where
    done : {c : C} → AllHit req [] c c
    hits :
        {p : Processor C E Req Resp} {ps : List (Processor C E Req Resp)} {c d e : C}
        → p.lookup c req ≡ (ok true, d)
        → AllHit req ps d e
        → AllHit req (p ∷ ps) c e

  -- The processor does not hit, or fails.
  abbrev pub Stops : Processor C E Req Resp → C → Req → C → Type 0
  Stops p c req d =
      (p.lookup c req ≡ (ok false, d)) ⊎ ((b : Bool) × (e : E) × (p.lookup c req ≡ (failed b e, d)))

  -- what the lookup of a chain comes to: all hit, or those before one that stops it
  abbrev pub Decided : List (Processor C E Req Resp) → C → Req → Looked C → Type 0
  Decided ps c req l =
      ((l.hit ≡ true) × AllHit req ps c l.state)
      ⊎ ((l.hit ≡ false)
          × (before : List (Processor C E Req Resp)) × (p : Processor C E Req Resp) × (after : List
              (Processor C E Req Resp))
          × (d : C) × (ps ≡ before ++ p ∷ after)
          × AllHit req before c d
          × Stops p d req l.state)

  extend :
      {p : Processor C E Req Resp} {ps : List (Processor C E Req Resp)} {c d : C} {req : Req}
      {l : Looked C}
      → p.lookup c req ≡ (ok true, d)
      → Decided ps d req l
      → Decided (p ∷ ps) c req l
  extend e (inl (h, all)) = inl (h, hits e all)
  extend {p} e (inr (h, before, q, rest, d', split, all, stops)) =
      inr (h, p ∷ before, q, rest, d', ap (λ x. p ∷ x) split, hits e all, stops)

  after_one :
      (p : Processor C E Req Resp) (ps : List (Processor C E Req Resp)) (c : C) (req : Req)
      (rest : C → Result E Bool × Looked C)
      → ((d : C) → Decided ps d req (hit_of (rest d)))
      → (a : Result E Bool × C) → p.lookup c req ≡ a
      → Decided (p ∷ ps) c req (hit_of (looked_up rest a))
  after_one p ps c req rest ih (ok true, d) e = extend e (ih d)
  after_one p ps c req rest ih (ok false, d) e = inr (refl, [], p, ps, c, refl, done, inl e)
  after_one p ps c req rest ih (failed b err, d) e =
      inr (refl, [], p, ps, c, refl, done, inr (b, err, e))

  chain-Decided :
      (ps : List (Processor C E Req Resp)) (hit : Bool) (c : C) (req : Req)
      → Decided ps c req (hit_of (lookup_chain ps hit c req))
  unfolding lookup_chain
  chain-Decided [] hit c req = inl (refl, done)
  chain-Decided (p ∷ ps) hit c req =
      after_one p ps c req (λ d. lookup_chain ps true d req) (λ d. chain-Decided ps true d req)
        (p.lookup c req) refl

  -- The lookup of a chain is a hit when each processor hits, in the state that the one before has left;
  -- else it is none, all processors before some one hit, this one does not hit or fails, and the later ones
  -- are not asked: the state is the one that this processor has left.
  pub look_up-Decided :
      (ps : List (Processor C E Req Resp)) (c : C) (req : Req) → Decided ps c req (look_up ps c req)
  unfolding look_up
  look_up-Decided ps c req = chain-Decided ps false c req
