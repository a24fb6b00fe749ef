-- ===== src/Savepart/Closed.antt =====
-- `flush` of a saving reader does not close it.
use tavern.Prelude.{
  if◌then◌else◌, ◌+◌, ◌++◌, min, drop, take, ℕ, zero, suc, ◌-◌, ◌%◌, ◌≡◌, inl, inr, refl, ◌∙◌,
  subst, Bool, true, false, Option, none, some, [], ◌∷◌, length, ◌==◌, Bool-cases,
}
use tavern.Prelude.Text.{Bytes}
use tavern.Savepart.Reader.{
  SavepartReader, Events, after_success, write_block, after_block, flush_loop, flush_end, flush,
}

module _ {S : Type 0} (events : Events S) (p : ℕ) where
  -- the state of a result, if there is one, is closed or not
  abbrev Keeps : Bool → Option (Bool × SavepartReader S) → Type 0
  Keeps c none = Unit
  Keeps c (some (ok, s)) = s.closed ≡ c

  success_closed :
      (at_end : Bool) (s : SavepartReader S) (r : Bool × S)
      → (after_success events p at_end s r).1.closed ≡ s.closed
  success_closed at_end s (true, sink) = refl
  success_closed at_end s (false, sink) = refl

  write_block_closed :
      (at_end : Bool) (s : SavepartReader S) → (write_block events p at_end s).1.closed ≡ s.closed
  unfolding write_block
  write_block_closed at_end s = elim (Bool-cases (length s.buf == 0)) [
    | inl e ↦ rw e refl
    | inr e ↦ rw e (success_closed at_end s _)
  ]

  after_block-Keeps :
      (c : Bool) (again : Bytes → SavepartReader S → Option (Bool × SavepartReader S)) (d : Bytes)
      (room : ℕ) (r : Bool × SavepartReader S)
      → ((d : Bytes) (s : SavepartReader S) → s.closed ≡ c → Keeps c (again d s))
      → r.1.closed ≡ c
      → Keeps c (after_block events p again d room r)
  after_block-Keeps c again d room (true, s) h e = h _ _ e
  after_block-Keeps c again d room (false, s) h e = e

  if-Keeps :
      (c b : Bool) (x y : Option (Bool × SavepartReader S))
      → Keeps c x
      → Keeps c y
      → Keeps c (if b then x else y)
  if-Keeps c true x y h g = h
  if-Keeps c false x y h g = g

  flush_loop-Keeps :
      (rounds : ℕ) (at_end : Bool) (d : Bytes) (c : Bool) (s : SavepartReader S)
      → s.closed ≡ c
      → Keeps c (flush_loop events p rounds at_end d s)
  unfolding flush_loop
  flush_loop-Keeps rounds at_end [] c s e = e
  flush_loop-Keeps zero at_end (x ∷ xs) c s e = tt
  flush_loop-Keeps (suc rounds) at_end (x ∷ xs) c s e =
      let from = s.pos % p in
      let d = x ∷ xs in
      let n = min (p - from) (length d) in
      let again : (d : Bytes) (t : SavepartReader S)
          → t.closed ≡ c
          → Keeps c (flush_loop events p rounds at_end d t) =
        λ d t. flush_loop-Keeps rounds at_end d c t in
      if-Keeps c s.skip _ _
        (if-Keeps c (from == 0) _ _ (again d (record s { skip = false }) e)
          (again (drop n d) (record s { pos = s.pos + n }) e))
        (if-Keeps c (length s.buf == p) _ _
          (after_block-Keeps c _ d (p - from) (write_block events p at_end s) again
            (write_block_closed at_end s ∙ e))
          (again (drop n d) (record s { buf = s.buf ++ take n d; pos = s.pos + n }) e))

  flush_end-Keeps :
      (at_end : Bool) (c : Bool) (o : Option (Bool × SavepartReader S))
      → Keeps c o
      → Keeps c (flush_end events p at_end o)
  flush_end-Keeps at_end c none h = tt
  flush_end-Keeps at_end c (some (false, s)) h = h
  flush_end-Keeps true c (some (true, s)) h = write_block_closed true s ∙ h
  flush_end-Keeps false c (some (true, s)) h = h

  pub flush_closed :
      (at_end : Bool) (d : Bytes) (s t : SavepartReader S)
      → flush events p at_end d s ≡ some (true, t)
      → t.closed ≡ s.closed
  unfolding flush
  flush_closed at_end d s t e =
      subst (Keeps s.closed) e
        (flush_end-Keeps at_end s.closed _ (flush_loop-Keeps _ at_end d s.closed s refl))
