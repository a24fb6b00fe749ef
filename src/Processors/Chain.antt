-- ===== src/Processors/Chain.antt =====
-- `ProcessorChain`. A processor reads and changes the state of the request (the `Caching` and all that
-- it refers to), which goes from one to the next. Debug messages are left out.
use tavern.Prelude.{Bool, true, false, Option, none, some, List, [], ◌∷◌}

-- What a method gives, with the error of an `error` result.
pub data Result {ℓ κ} (E : Type ℓ) (A : Type κ) : Type (ℓ ⊔ κ) where
  ok : A → Result E A
  failed : A → E → Result E A

-- `Processor`, over the state C, requests and responses
pub record Processor (C E Req Resp : Type 0) : Type 0 where
  pub lookup : C → Req → Result E Bool × C
  pub pre_request : C → Req → Result E Req × C
  pub post_request : C → Req → Resp → Result E Resp × C

-- the state, with the `hit` field of `Caching`
pub record Looked (C : Type 0) : Type 0 where
  pub state : C
  pub hit : Bool

-- after the lookup of one processor: whether the chain hits, an error, and the state
abbrev pub looked_up :
    {C E : Type 0} → (C → Result E Bool × Looked C) → Result E Bool × C → Result E Bool × Looked C
looked_up rest (ok true, c) = rest c
looked_up rest (ok false, c) = (ok false, record { state = c; hit = false })
looked_up rest (failed b e, c) = (failed false e, record { state = c; hit = b })

abbrev pub requested :
    {C E Req : Type 0} → (C → Req → Result E Req × C) → Result E Req × C → Result E Req × C
requested rest (ok req, c) = rest c req
requested rest (failed req e, c) = (failed req e, c)

abbrev pub responded :
    {C E Resp : Type 0} → (C → Resp → Result E Resp × C) → Result E Resp × C → Result E Resp × C
responded rest (ok resp, c) = rest c resp
responded rest (failed resp e, c) = (failed resp e, c)

abbrev pub hit_of : {C E : Type 0} → Result E Bool × Looked C → Looked C
hit_of (ok b, l) = record l { hit = b }
hit_of (failed b e, l) = record l { hit = b }

module _ {C E Req Resp : Type 0} where
  -- `ProcessorChain.Lookup`. The `hit` field is that of the last processor that was asked, and is as it was where there is none.
  unfoldable pub lookup_chain :
      List (Processor C E Req Resp) → Bool → C → Req → Result E Bool × Looked C
  lookup_chain [] hit c req = (ok true, record { state = c; hit = hit })
  lookup_chain (p ∷ ps) hit c req = looked_up (λ d. lookup_chain ps true d req) (p.lookup c req)

  -- `ProcessorChain.PreRequest`
  unfoldable pub pre_request_chain : List (Processor C E Req Resp) → C → Req → Result E Req × C
  pre_request_chain [] c req = (ok req, c)
  pre_request_chain (p ∷ ps) c req = requested (pre_request_chain ps) (p.pre_request c req)

  -- `ProcessorChain.PostRequest`
  unfoldable pub post_request_chain :
      List (Processor C E Req Resp) → C → Req → Resp → Result E Resp × C
  post_request_chain [] c req resp = (ok resp, c)
  post_request_chain (p ∷ ps) c req resp =
      responded (λ d r. post_request_chain ps d req r) (p.post_request c req resp)

  -- `fill`: the processors that are not nil
  unfoldable pub fill_chain : List (Option (Processor C E Req Resp)) → List (Processor C E Req Resp)
  fill_chain [] = []
  fill_chain (none ∷ ps) = fill_chain ps
  fill_chain (some p ∷ ps) = p ∷ fill_chain ps

  -- the end of `preCacheProcessor`: the result of the lookup is the `hit` field, and an error is logged
  unfoldable pub look_up : List (Processor C E Req Resp) → C → Req → Looked C
  look_up ps c req = hit_of (lookup_chain ps false c req)
