-- ===== src/ObjectFlight/Fanned.antt =====
-- What the callers of an object flight get (server/middleware/caching/object_flight.go).
use mathlib.Core.List.{append_assoc}
use tavern.Prelude.{
  ℕ, zero, suc, ◌-◌, ◌≡◌, ◌≤◌, refl, sym, ap, ◌∙◌, Bool, true, Option, some, List, [], ◌∷◌, ◌++◌,
  map, arith, length, All,
}
use tavern.Prelude.Text.{Bytes}
use tavern.ObjectFlight.{
  CallerPipe, write_pipe, and_rest, write_pipes, copy_next, copy_body, close_pipes, close_after,
  fan_out_body,
}

-- the bytes of some reads
abbrev pub joined : List Bytes → Bytes
joined [] = []
joined (b ∷ bs) = b ++ joined bs

-- a pipe after some writes
abbrev pub written : List Bytes → CallerPipe → CallerPipe
written bs p = record p { accepts = p.accepts - length bs; got = p.got ++ joined bs }

abbrev pub IsOpen : ℕ → List CallerPipe → Type 0
IsOpen n ps = All (λ p. n ≤ p.accepts) ps

append_nil : (b : Bytes) → b ++ [] ≡ b
append_nil [] = refl
append_nil (x ∷ b) = ap (λ l. x ∷ l) (append_nil b)

write_pipe-written :
    (b : Bytes) (n : ℕ) (a : ℕ) (got : Bytes) (e : Option Bool)
    → suc n ≤ a
    → (let p : CallerPipe = record { accepts = a; got = got; ended = e } in
        write_pipe b p ≡ (true, record { accepts = a - 1; got = got ++ b; ended = e }))
write_pipe-written b n zero got e h = absurd (omega (arith, h))
write_pipe-written b n (suc a) got e h =
    ap (λ k. (true, record { accepts = k; got = got ++ b; ended = e })) (omega arith)

abbrev once : Bytes → CallerPipe → CallerPipe
once b p = record p { accepts = p.accepts - 1; got = p.got ++ b }

write_pipes-once :
    (b : Bytes) (n : ℕ) (ps : List CallerPipe)
    → IsOpen (suc n) ps
    → write_pipes b ps ≡ (true, map (once b) ps)
unfolding write_pipes
write_pipes-once b n [] h = refl
write_pipes-once b n (p ∷ ps) h =
    ap (λ r. and_rest r ps (write_pipes b ps)) (write_pipe-written b n p.accepts p.got p.ended h.0)
    ∙ ap (and_rest (true, once b p) ps) (write_pipes-once b n ps h.1)

once-IsOpen :
    (b : Bytes) (n : ℕ) (ps : List CallerPipe) → IsOpen (suc n) ps → IsOpen n (map (once b) ps)
once-IsOpen b n [] h = tt
once-IsOpen b n (p ∷ ps) h = (omega (arith, h.0), once-IsOpen b n ps h.1)

pipe_eq :
    (a c : ℕ) (g h : Bytes) (e : Option Bool)
    → a ≡ c
    → g ≡ h
    → ◌≡◌ {A = CallerPipe}
        (record { accepts = a; got = g; ended = e })
        (record { accepts = c; got = h; ended = e })
pipe_eq a c g h e p q =
    ap (λ x. record { accepts = x; got = g; ended = e }) p
    ∙ ap (λ y. record { accepts = c; got = y; ended = e }) q

map-once :
    (b : Bytes) (bs : List Bytes) (ps : List CallerPipe)
    → map (written bs) (map (once b) ps) ≡ map (written (b ∷ bs)) ps
map-once b bs [] = refl
map-once b bs (p ∷ ps) =
    ap (λ l. written bs (once b p) ∷ l) (map-once b bs ps)
    ∙ ap (λ q. q ∷ map (written (b ∷ bs)) ps)
        (pipe_eq _ _ _ _ p.ended (omega arith) (append_assoc p.got b (joined bs)))

map-nil : (ps : List CallerPipe) → map (written []) ps ≡ ps
map-nil [] = refl
map-nil (p ∷ ps) =
    ap (λ l. written [] p ∷ l) (map-nil ps)
    ∙ ap (λ q. q ∷ ps) (pipe_eq _ _ _ _ p.ended (omega arith) (append_nil p.got))

copy_body-written :
    (bs : List Bytes) (ok : Bool) (ps : List CallerPipe)
    → IsOpen (length bs) ps
    → copy_body bs ok ps ≡ (ok, map (written bs) ps)
unfolding copy_body
copy_body-written [] ok ps h = ap (λ l. (ok, l)) (sym (map-nil ps))
copy_body-written (b ∷ bs) ok ps h =
    ap (copy_next (copy_body bs ok)) (write_pipes-once b (length bs) ps h)
    ∙ copy_body-written bs ok (map (once b) ps) (once-IsOpen b (length bs) ps h)
    ∙ ap (λ l. (ok, l)) (map-once b bs ps)

-- A pipe at the end: what it has got, and how it has ended.
abbrev pub served_pipe : List Bytes → Bool → CallerPipe → CallerPipe
served_pipe bs ok p = record p {
  accepts = p.accepts - length bs;
  got = p.got ++ joined bs;
  ended = some ok;
}

close_pipes-map :
    (bs : List Bytes) (ok : Bool) (ps : List CallerPipe)
    → close_pipes ok (map (written bs) ps) ≡ map (served_pipe bs ok) ps
close_pipes-map bs ok [] = refl
close_pipes-map bs ok (p ∷ ps) = ap (λ l. served_pipe bs ok p ∷ l) (close_pipes-map bs ok ps)

-- Where no caller closes its body before the body of the origin has ended, each caller gets all bytes of it, in
-- order, and then the end, or the error that the body of the origin ends with.
pub fan_out_body_lem :
    (bs : List Bytes) (ok : Bool) (ps : List CallerPipe)
    → IsOpen (length bs) ps
    → fan_out_body bs ok ps ≡ map (served_pipe bs ok) ps
unfolding fan_out_body
fan_out_body_lem bs ok ps h =
    ap close_after (copy_body-written bs ok ps h) ∙ close_pipes-map bs ok ps
