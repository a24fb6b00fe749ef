-- ===== src/Savepart/Blocks.antt =====
-- The blocks that a saving reader hands over hold the bytes of the object at their places.
use tavern.Prelude.{
  ℕ, suc, ◌+◌, ◌-◌, ◌*◌, ◌/◌, ◌%◌, ◌^◌, ◌≤◌, ◌<◌, ◌≡◌, ◌⊎◌, inl, inr, refl, Bool, true, false,
  Option, some, [], ◌++◌, arith, length, min, ◌==◌, take, drop, ap, ◌∙◌,
}
use tavern.Prelude.Text.{Bytes}
use tavern.Prelude.Slices.{slice, length-slice, take-slice, drop-slice, slice-append}
use tavern.Savepart.Align.{div_boundary}
use tavern.Savepart.Reader.{SavepartReader, Events, write_block, add_data, skip_data}

-- What a receiver of blocks does: where the blocks before the block k are dealt with, it takes the block
-- k, which is full or ends at the end of the body, without an error. Q says that the blocks before k are dealt with.
pub record Takes {S : Type 0} (events : Events S) (p : ℕ) (obj : Bytes) (stop : ℕ)
    (Q : S → ℕ → Type 0) : Type 0 where
  pub takes :
      (s : S) (k pos : ℕ) (at_end : Bool)
      → Q s k
      → k * p < pos
      → pos ≤ length obj
      → (pos ≡ k * p + p) ⊎ ((at_end ≡ true) × (pos ≡ stop) × (pos < k * p + p))
      → (s' : S) × (events.on_success s (slice obj (k * p) pos) (k % 2 ^ 32) pos at_end
          ≡ (true, s'))
        × Q s' (suc k)

module _ {S : Type 0} (events : Events S) (p : ℕ) (pos : 0 < p) (obj : Bytes) (stop : ℕ)
    (Q : S → ℕ → Type 0) (law : Takes events p obj stop Q) where
  abbrev pub Skips : SavepartReader S → ℕ → Type 0
  Skips s k = (s.skip ≡ true) × (s.buf ≡ []) × (s.pos ≤ k * p) × (k * p < s.pos + p)

  abbrev pub Holds : SavepartReader S → ℕ → Type 0
  Holds s k =
      (s.skip ≡ false) × (k * p ≤ s.pos) × (s.pos ≤ k * p + p) × (s.buf ≡ slice obj (k * p) s.pos)

  -- The blocks before k are dealt with; the buffer holds what is read of the block k, or the reader skips
  -- to its start.
  abbrev pub Saved : SavepartReader S → ℕ → Type 0
  Saved s k = Q s.sink k × (Skips s k ⊎ Holds s k)

  pub length-buf :
      (s : SavepartReader S) (k : ℕ) → Holds s k → s.pos ≤ length obj → length s.buf ≡ s.pos - k * p
  length-buf s k (f, l, u, e) h = ap length e ∙ length-slice obj (k * p) s.pos h

  -- `writeBlock` on a block that is full, or is the last one
  pub write_block_lem :
      (s : SavepartReader S) (k : ℕ) (at_end : Bool)
      → Q s.sink k
      → Holds s k
      → s.pos ≤ length obj
      → k * p < s.pos
      → (s.pos ≡ k * p + p) ⊎ ((at_end ≡ true) × (s.pos ≡ stop) × (s.pos < k * p + p))
      → (sink : S) × Q sink (suc k)
        × (write_block events p at_end s
            ≡ (true, record s { at_eof = at_end; buf = []; sink = sink }))
  unfolding write_block
  write_block_lem s k at_end q held h some_bytes whole =
      let size = length-buf s k held h in
      let (sink, e, q') = law.takes s.sink k s.pos at_end q some_bytes h whole in
      let idx : (s.pos - length s.buf) / p ≡ k =
        ap (λ x. x / p) (omega (arith, size, held.1)) ∙ div_boundary k p pos in
      let there : (length s.buf == 0) ≡ false = ground (arith, size) in
      let handed : events.on_success s.sink s.buf ((s.pos - length s.buf) / p % 2 ^ 32) s.pos at_end
          ≡ (true, sink) =
        ap (λ i. events.on_success s.sink s.buf (i % 2 ^ 32) s.pos at_end) idx
        ∙ ap (λ b. events.on_success s.sink b (k % 2 ^ 32) s.pos at_end) (held.3)
        ∙ e in
      (sink, q', rw (there, handed) refl)

  pub write_block_empty :
      (s : SavepartReader S) (at_end : Bool)
      → length s.buf ≡ 0
      → write_block events p at_end s ≡ (true, record s { at_eof = at_end })
  unfolding write_block
  write_block_empty s at_end h =
      let e : (length s.buf == 0) ≡ true = ground (arith, h) in simp e refl

  pub suc_mul : (k : ℕ) → suc k * p ≡ k * p + p
  suc_mul k = grind arith

  -- what is left of the body in a read: the object from the position up to `e`
  abbrev pub Rest : Bytes → ℕ → ℕ → Type 0
  Rest d at e = (d ≡ slice obj at e) × (at ≤ e) × (e ≤ length obj)

  pub Rest-length : (d : Bytes) (at e : ℕ) → Rest d at e → length d ≡ e - at
  Rest-length d at e (q, l, u) = ap length q ∙ length-slice obj at e u

  pub Rest-drop : (d : Bytes) (at e n : ℕ) → Rest d at e → n ≤ e - at → Rest (drop n d) (at + n) e
  Rest-drop d at e n (q, l, u) h = (ap (λ x. drop n x) q ∙ drop-slice obj at e n, omega arith, u)

  -- what the loop gives, from a state whose blocks are saved
  abbrev pub Flushed : ℕ → Option (Bool × SavepartReader S) → Type 0
  Flushed e o = (s : SavepartReader S) × (k : ℕ) × (o ≡ some (true, s)) × Saved s k × (s.pos ≡ e)

  module _ (e : ℕ) (again : Bytes → SavepartReader S → Option (Bool × SavepartReader S)) where
    -- Adding bytes to a block that has room.
    pub add_data_lem :
        (d : Bytes) (s : SavepartReader S) (k room : ℕ)
        → Rest d s.pos e
        → Q s.sink k
        → Holds s k
        → s.pos + room ≤ k * p + p
        → ((t : SavepartReader S) (n : ℕ)
            → n ≡ min room (length d)
            → t.skip ≡ false
            → t.pos ≡ s.pos + n
            → Saved t k
            → Rest (drop n d) t.pos e
            → Flushed e (again (drop n d) t))
        → Flushed e (add_data events p again d room s)
    add_data_lem d s k room (q, l, u) done (f, lo, hi, b) fits ih =
        let n : ℕ = min room (length d) in
        let size = Rest-length d s.pos e (q, l, u) in
        let joined : s.buf ++ take n d ≡ slice obj (k * p) (s.pos + n) =
          ap (λ x. x ++ take n d) b
          ∙ ap (λ x. slice obj (k * p) s.pos ++ take n x) q
          ∙ ap (λ x. slice obj (k * p) s.pos ++ x) (take-slice obj s.pos e n (omega arith))
          ∙ slice-append obj (k * p) s.pos (s.pos + n) lo (omega arith) in
        ih (record s { buf = s.buf ++ take n d; pos = s.pos + n }) n refl f refl
          (done, inr (f, omega arith, omega arith, joined))
          (Rest-drop d s.pos e n (q, l, u) (omega arith))

    -- Passing over bytes before the boundary k.
    pub skip_data_lem :
        (d : Bytes) (s : SavepartReader S) (k room : ℕ)
        → Rest d s.pos e
        → Q s.sink k
        → s.skip ≡ true
        → s.buf ≡ []
        → room ≡ k * p - s.pos
        → s.pos ≤ k * p
        → k * p < s.pos + p
        → ((t : SavepartReader S) (n : ℕ)
            → n ≡ min room (length d)
            → t.skip ≡ true
            → t.pos ≡ s.pos + n
            → Saved t k
            → Rest (drop n d) t.pos e
            → Flushed e (again (drop n d) t))
        → Flushed e (skip_data events p again d room s)
    skip_data_lem d s k room (q, l, u) done f b m lo hi ih =
        let n : ℕ = min room (length d) in
        let size = Rest-length d s.pos e (q, l, u) in
        ih (record s { pos = s.pos + n }) n refl f refl (done, inl (f, b, omega arith, omega arith))
          (Rest-drop d s.pos e n (q, l, u) (omega arith))
