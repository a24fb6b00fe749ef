-- ===== src/Savepart/Flush.antt =====
-- The loop of `flush`, and `flush`: its rounds are enough, and every full block is handed over.
use tavern.Prelude.{
  ℕ, zero, suc, ◌+◌, ◌-◌, ◌*◌, ◌%◌, ◌≤◌, ◌<◌, ◌≡◌, ◌⊎◌, inl, inr, refl, Bool, true, false, Option,
  some, [], ◌∷◌, arith, length, ltb, ◌==◌, drop, ap, sym, ◌∙◌, Bool-cases, length-drop,
}
use tavern.Prelude.Text.{Bytes}
use tavern.Prelude.Slices.{slice_empty}
use tavern.Savepart.Align.{mod_past, mod_full, to_boundary}
use tavern.Savepart.Reader.{SavepartReader, Events, write_block, flush_loop, flush}
use tavern.Savepart.Blocks.{
  Takes, write_block_lem, write_block_empty, add_data_lem, skip_data_lem, length-buf, suc_mul,
  Rest-length, Rest, Flushed, Saved, Skips, Holds,
}

module _ {S : Type 0} (events : Events S) (p : ℕ) (pos : 0 < p) (obj : Bytes) (stop : ℕ)
    (Q : S → ℕ → Type 0) (law : Takes events p obj stop Q) where
  -- The rounds that the loop has left are enough: one for each byte, and one more while it skips.
  abbrev Enough : ℕ → Bytes → SavepartReader S → Type 0
  Enough rounds d s = (length d < rounds) ⊎ ((s.skip ≡ false) × (length d ≤ rounds))

  flush_loop_lem :
      (rounds : ℕ) (at_end : Bool) (d : Bytes) (s : SavepartReader S) (k e : ℕ)
      → Rest events p pos obj stop Q law d s.pos e
      → Saved events p pos obj stop Q law s k
      → Enough rounds d s
      → Flushed events p pos obj stop Q law e (flush_loop events p rounds at_end d s)
  unfolding flush_loop
  flush_loop_lem rounds at_end [] s k e r saved enough =
      (s, k, refl, saved, omega (arith, Rest-length events p pos obj stop Q law [] s.pos e r, r.1))
  flush_loop_lem zero at_end (x ∷ xs) s k e r saved (inl h) = absurd (omega arith)
  flush_loop_lem zero at_end (x ∷ xs) s k e r saved (inr (g, h)) = absurd (omega arith)
  flush_loop_lem (suc rounds) at_end (x ∷ xs) s k e r (done, inl (f, b, lo, hi)) (inr (g, h)) =
      cc (f, g)
  flush_loop_lem (suc rounds) at_end (x ∷ xs) s k e r (done, inl (f, b, lo, hi)) (inl h) =
      elim (to_boundary k p s.pos pos lo hi) [
        | inl (m, there) ↦
            let m' : (s.pos % p == 0) ≡ true = ground (arith, m) in
            simp (f, m')
              (flush_loop_lem rounds at_end (x ∷ xs) (record s { skip = false }) k e r
                (
                  done,
                  inr (
                    refl,
                    omega arith,
                    omega arith,
                    b ∙ sym (slice_empty obj (k * p) s.pos (omega arith)),
                  ),
                )
                (inr (refl, omega arith)))
        | inr (m, room, before) ↦
            let m' : (s.pos % p == 0) ≡ false = ground (arith, m) in
            simp (f, m')
              (skip_data_lem events p pos obj stop Q law e (flush_loop events p rounds at_end)
                (x ∷ xs) s k (p - s.pos % p) r done f b room lo hi
                (λ t n en ft et saved' r'.
                  flush_loop_lem rounds at_end (drop n (x ∷ xs)) t k e r' saved'
                    (inl (omega (arith, length-drop n (x ∷ xs))))))
      ]
  flush_loop_lem (suc rounds) at_end (x ∷ xs) s k e r (done, inr (f, lo, hi, b)) enough =
      let size =
        length-buf events p pos obj stop Q law s k (f, lo, hi, b) (omega (arith, r.1, r.2)) in
      let left : length (x ∷ xs) ≤ suc rounds = enough_bytes enough in
      elim (Bool-cases (length s.buf == p)) [
        | inl full ↦
            let at_boundary : s.pos ≡ k * p + p = ground (arith, full, size) in
            let from : s.pos % p ≡ 0 = mod_full k p s.pos pos at_boundary in
            let (sink, q, e') =
              write_block_lem events p pos obj stop Q law s k at_end done (f, lo, hi, b)
                (omega (arith, r.1, r.2)) (omega arith) (inl at_boundary) in
            simp (f, full, e')
              (add_data_lem events p pos obj stop Q law e (flush_loop events p rounds at_end)
                (x ∷ xs) (record s { skip = false; at_eof = at_end; buf = []; sink = sink }) (suc k)
                (p - s.pos % p) r q
                (
                  refl,
                  omega (arith, suc_mul events p pos obj stop Q law k),
                  omega (arith, suc_mul events p pos obj stop Q law k),
                  sym (
                      slice_empty obj (suc k * p) s.pos
                        (omega (arith, suc_mul events p pos obj stop Q law k))),
                )
                (omega (arith, suc_mul events p pos obj stop Q law k))
                (λ t n en ft et saved' r'.
                  flush_loop_lem rounds at_end (drop n (x ∷ xs)) t (suc k) e r' saved'
                    (inr (ft, omega (arith, length-drop n (x ∷ xs))))))
        | inr part ↦
            let inside : s.pos < k * p + p = ground (arith, part, size) in
            let from : s.pos % p ≡ s.pos - k * p = mod_past k p s.pos pos lo inside in
            simp (f, part)
              (add_data_lem events p pos obj stop Q law e (flush_loop events p rounds at_end)
                (x ∷ xs) s k (p - s.pos % p) r done (f, lo, hi, b) (omega arith)
                (λ t n en ft et saved' r'.
                  flush_loop_lem rounds at_end (drop n (x ∷ xs)) t k e r' saved'
                    (inr (ft, omega (arith, length-drop n (x ∷ xs))))))
      ]
    where
      enough_bytes : Enough (suc rounds) (x ∷ xs) s → length (x ∷ xs) ≤ suc rounds
      enough_bytes (inl h) = omega arith
      enough_bytes (inr (g, h)) = omega arith

  -- `flush` of the next bytes of the object hands over each block that is full, and at the end the last
  -- one too: then all blocks before the end are dealt with.
  abbrev pub FlushEnd : Bool → ℕ → Option (Bool × SavepartReader S) → Type 0
  FlushEnd false e o = Flushed events p pos obj stop Q law e o
  FlushEnd true e o =
      (s : SavepartReader S) × (k : ℕ) × (o ≡ some (true, s)) × Q s.sink k × (e ≤ k * p)

  pub flush_lem :
      (at_end : Bool) (d : Bytes) (s : SavepartReader S) (k e : ℕ)
      → Rest events p pos obj stop Q law d s.pos e
      → Saved events p pos obj stop Q law s k
      → (at_end ≡ true → e ≡ stop)
      → FlushEnd at_end e (flush events p at_end d s)
  unfolding flush
  flush_lem false d s k e r saved last =
      let (t, k', done, saved', there) =
        flush_loop_lem (length d + 1) false d s k e r saved (inl (omega arith)) in
      (t, k', rw done refl, saved', there)
  flush_lem true d s k e r saved last =
      let (t, k', done, (q, inv), there) =
        flush_loop_lem (length d + 1) true d s k e r saved (inl (omega arith)) in
      rw done (finish t k' q inv there)
    where
      finish :
          (t : SavepartReader S) (k' : ℕ)
          → Q t.sink k'
          → Skips events p pos obj stop Q law t k' ⊎ Holds events p pos obj stop Q law t k'
          → t.pos ≡ e
          → FlushEnd true e (some (write_block events p true t))
      finish t k' q (inl (f, b, lo, hi)) there = (
        record t { at_eof = true },
        k',
        ap some (write_block_empty events p pos obj stop Q law t true (ap length b)),
        q,
        omega arith,
      )
      finish t k' q (inr (f, lo, hi, b)) there =
          let inside : t.pos ≤ length obj = omega (arith, r.2) in
          elim (Bool-cases (ltb (k' * p) t.pos)) [
            | inl more ↦
                let (sink, q', e') =
                  write_block_lem events p pos obj stop Q law t k' true q (f, lo, hi, b) inside
                    (ground arith) (whole (t.pos) hi there) in
                (
                  record t { at_eof = true; buf = []; sink = sink },
                  suc k',
                  ap some e',
                  q',
                  omega (arith, suc_mul events p pos obj stop Q law k'),
                )
            | inr no_more ↦ (
              record t { at_eof = true },
              k',
              ap some (
                  write_block_empty events p pos obj stop Q law t true (
                    ground
                      (arith, length-buf events p pos obj stop Q law t k' (f, lo, hi, b) inside))),
              q,
              ground arith,
            )
          ]
        where
          whole :
              (x : ℕ)
              → x ≤ k' * p + p
              → x ≡ e
              → (x ≡ k' * p + p) ⊎ ((true ≡ true) × (x ≡ stop) × (x < k' * p + p))
          whole x h there' = elim (Bool-cases (ltb x (k' * p + p))) [
            | inl less ↦ inr (refl, omega (arith, last refl), ground arith)
            | inr full ↦ inl (ground arith)
          ]
