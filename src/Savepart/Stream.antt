-- ===== src/Savepart/Stream.antt =====
-- A client that reads a saving reader to the end.
use mathlib.Core.List.{append_assoc}
use tavern.Prelude.{
  ℕ, zero, suc, ◌+◌, ◌-◌, ◌*◌, ◌≤◌, ◌<◌, ◌≡◌, ◌⊎◌, inl, inr, refl, true, false, some, List, [], ◌∷◌,
  ◌++◌, arith, length, take, drop, ap, sym, ◌∙◌, length-append,
}
use tavern.Prelude.Text.{Bytes}
use tavern.Prelude.Slices.{
  slice, length-slice, take-slice, drop-slice, slice_empty, take-append_exact, drop-append_past,
}
use tavern.Readers.Stream.{Status, nil, eof, failed}
use tavern.Readers.Parts.{joined}
use tavern.Savepart.Reader.{SavepartReader, savepart_reader, Events, read_saving, save_all}
use tavern.Savepart.Flush.{flush_lem}
use tavern.Savepart.Blocks.{Takes, Saved, Skips, Holds}

-- what the reads of a body give: pieces, and the last one with the end
abbrev pub reads_of : List Bytes → Bytes → List (Bytes × Status)
reads_of [] last = (last, eof) ∷ []
reads_of (d ∷ ds) last = (d, nil) ∷ reads_of ds last

-- pieces, and a read that fails with some bytes
abbrev pub reads_failing : List Bytes → Bytes → List (Bytes × Status)
reads_failing [] d = (d, failed) ∷ []
reads_failing (c ∷ ds) d = (c, nil) ∷ reads_failing ds d

module _ {S : Type 0} (events : Events S) (p : ℕ) (pos : 0 < p) (obj : Bytes) (stop : ℕ)
    (Q : S → ℕ → Type 0) (law : Takes events p obj stop Q) where
  -- The first piece of what is left of the body, and the rest.
  pub piece :
      (stop : ℕ) (d rest : Bytes) (at : ℕ)
      → d ++ rest ≡ slice obj at stop
      → at ≤ stop
      → stop ≤ length obj
      → (d ≡ slice obj at (at + length d))
        × (at + length d ≤ stop)
        × (rest ≡ slice obj (at + length d) stop)
  piece stop d rest at e h l =
      let fits : at + length d ≤ stop =
        omega (arith, length-append d rest, ap length e, length-slice obj at stop l) in
      let none_left : length d - length d ≡ 0 = omega arith in
      (
        sym (take-append_exact d rest)
            ∙ ap (λ x. take (length d) x) e
            ∙ take-slice obj at stop (length d) fits,
        fits,
        sym (drop-append_past (length d) d rest (omega arith) ∙ ap (λ n. drop n rest) none_left)
            ∙ ap (λ x. drop (length d) x) e
            ∙ drop-slice obj at stop (length d),
      )

  save_all_step :
      (ds : List Bytes) (last : Bytes) (s : SavepartReader S) (k : ℕ)
      → joined ds ++ last ≡ slice obj s.pos stop
      → s.pos ≤ stop
      → stop ≤ length obj
      → Saved events p pos obj stop Q law s k
      → (t : SavepartReader S) × (k' : ℕ) × (save_all events p (reads_of ds last) s
          ≡ some (joined ds ++ last, eof, t))
        × Q t.sink k'
        × (stop ≤ k' * p)
  unfolding save_all read_saving
  save_all_step [] last s k e h l saved =
      let (t, k', done, q, all) =
        flush_lem events p pos obj stop Q law true last s k stop (e, h, l) saved (λ x. refl) in
      (t, k', rw done refl, q, all)
  save_all_step (d ∷ ds) last s k e h l saved =
      let (q, fits, rest) =
        piece stop d (joined ds ++ last) s.pos (sym (append_assoc d (joined ds) last) ∙ e) h l in
      let (t, k', done, saved', there) =
        flush_lem events p pos obj stop Q law false d s k (s.pos + length d)
          (q, omega arith, omega arith) saved (λ x. absurd (cc x)) in
      let (u, k'', done', q', all) =
        save_all_step ds last t k' (rest ∙ ap (λ x. slice obj x stop) (sym there)) (omega arith) l
          saved' in
      (
        u,
        k'',
        rw (done, done') (ap (λ x. some (x, eof, u)) (sym (append_assoc d (joined ds) last))),
        q',
        all,
      )

  zero_boundary : (k : ℕ) → k * p < p → k * p ≡ 0
  zero_boundary zero h = grind arith
  zero_boundary (suc k) h = let e : suc k * p ≡ k * p + p = grind arith in absurd (omega (arith, e))

  pub first_state :
      (start k : ℕ) (sink : S)
      → Q sink k
      → start ≤ k * p
      → k * p < start + p
      → Saved events p pos obj stop Q law (savepart_reader start sink) k
  unfolding savepart_reader
  first_state zero k sink q lo hi =
      let none : k * p ≡ 0 = zero_boundary k (omega arith) in
      (q, inr (refl, omega arith, omega arith, sym (slice_empty obj (k * p) 0 (omega arith))))
  first_state (suc start) k sink q lo hi = (q, inl (ground arith, refl, lo, hi))

  -- A client that reads the saving reader of the bytes from `start` up to `stop` of the object, in pieces
  -- of any sizes, to the end, gets these bytes and the end; and the receiver has by then dealt with all
  -- blocks before `stop`, where it had with those before `start`.
  pub save_all_lem :
      (ds : List Bytes) (last : Bytes) (start k : ℕ) (sink : S)
      → joined ds ++ last ≡ slice obj start stop
      → start ≤ stop
      → stop ≤ length obj
      → Q sink k
      → start ≤ k * p
      → k * p < start + p
      → (t : SavepartReader S) × (k' : ℕ) × (save_all events p
            (reads_of ds last)
            (savepart_reader start sink)
          ≡ some (slice obj start stop, eof, t))
        × Q t.sink k'
        × (stop ≤ k' * p)
  unfolding savepart_reader
  save_all_lem ds last start k sink e h l q lo hi =
      let (t, k', done, q', all) =
        save_all_step ds last (savepart_reader start sink) k e h l
          (first_state start k sink q lo hi) in
      (t, k', done ∙ ap (λ x. some (x, eof, t)) e, q', all)

  save_all-failed_step :
      (ds : List Bytes) (d : Bytes) (s : SavepartReader S) (k stop' : ℕ)
      → joined ds ≡ slice obj s.pos stop'
      → s.pos ≤ stop'
      → stop' ≤ length obj
      → Saved events p pos obj stop Q law s k
      → (t : SavepartReader S) × (k' : ℕ) × (save_all events p (reads_failing ds d) s
          ≡ some (joined ds, failed, record t { sink = events.on_error t.sink }))
        × Q t.sink k'
        × (stop' ≤ (k' + 1) * p)
  unfolding save_all read_saving
  save_all-failed_step [] d s k stop' e h l (q, saved) = (s, k, refl, q, within saved)
    where
      ended : stop' ≡ s.pos
      ended = omega (arith, ap length e, length-slice obj s.pos stop' l)

      next : (k + 1) * p ≡ k * p + p
      next = grind arith

      within :
          Skips events p pos obj stop Q law s k ⊎ Holds events p pos obj stop Q law s k
          → stop' ≤ (k + 1) * p
      within (inl (f, b, lo, hi)) = omega (arith, ended, next)
      within (inr (f, lo, hi, b)) = omega (arith, ended, next)
  save_all-failed_step (c ∷ ds) d s k stop' e h l saved =
      let (q, fits, rest) = piece stop' c (joined ds) s.pos e h l in
      let (t, k', done, saved', there) =
        flush_lem events p pos obj stop Q law false c s k (s.pos + length c)
          (q, omega arith, omega arith) saved (λ x. absurd (cc x)) in
      let (u, k'', done', q', all) =
        save_all-failed_step ds d t k' stop' (rest ∙ ap (λ x. slice obj x stop') (sym there))
          (omega arith) l saved' in
      (u, k'', rw (done, done') refl, q', all)

  -- If a read of the underlying reader fails, the client gets the bytes of the reads before it and the
  -- error, and none of the bytes that came with the error. The failure is reported to the receiver, which
  -- has by then dealt with all blocks before the position but for one, the block that was not complete.
  pub save_all-failed :
      (ds : List Bytes) (d : Bytes) (start stop' k : ℕ) (sink : S)
      → joined ds ≡ slice obj start stop'
      → start ≤ stop'
      → stop' ≤ length obj
      → Q sink k
      → start ≤ k * p
      → k * p < start + p
      → (t : SavepartReader S) × (k' : ℕ) × (save_all events p
            (reads_failing ds d)
            (savepart_reader start sink)
          ≡ some (joined ds, failed, record t { sink = events.on_error t.sink }))
        × Q t.sink k'
        × (stop' ≤ (k' + 1) * p)
  unfolding savepart_reader
  save_all-failed ds d start stop' k sink e h l q lo hi =
      save_all-failed_step ds d (savepart_reader start sink) k stop' e h l
        (first_state start k sink q lo hi)
