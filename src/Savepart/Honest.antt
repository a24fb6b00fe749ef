-- ===== src/Savepart/Honest.antt =====
-- What the callbacks of `flushbufferSlice` leave in the bucket for the blocks of a body.
use tavern.Prelude.{
  ℕ, suc, ◌+◌, ◌-◌, ◌*◌, ◌%◌, ◌^◌, ◌≤◌, ◌<◌, ◌≡◌, ◌⊎◌, inl, inr, refl, Bool, true, false, not, ◌&&◌,
  some, arith, length, take, drop, ap, sym, ◌∙◌, ◌==◌, Bool-cases, length-drop,
}
use tavern.Prelude.Text.{Bytes}
use tavern.Prelude.Slices.{slice, length-slice, take_all}
use tavern.Iobuf.Bitmap.{BitmapLib}
use tavern.Savepart.Align.{boundary_before}
use tavern.Savepart.Blocks.{Takes}
use tavern.Savepart.Chunks.{ChunkStore, Target, writer_buffer, put_file, set_chunk, flush_events}

module _ (L : BitmapLib) (obj : Bytes) where
  -- Each chunk that the metadata has is a file with the object's bytes at its place.
  abbrev pub IsHonest : ℕ → ChunkStore L → Type 0
  IsHonest p st =
      (i : ℕ) → L.contains st.chunks i ≡ true → st.files i ≡ some (slice obj (i * p) ((i + 1) * p))

  -- The disk opens the files and takes whole blocks, and the size of the object is known.
  abbrev pub Works : Target L → Type 0
  Works t =
      (0 < t.block_size)
      × (t.obj_size ≡ length obj)
      × (0 < length obj)
      × (length obj ≤ 2 ^ 32)
      × ((i : ℕ) → t.opens i ≡ true)
      × ((i : ℕ) → t.block_size ≤ t.accepts i)
      × ((i : ℕ) → t.renames i ≡ true)

  -- the chunks from `first` up to `k`, without `k`, are in the metadata
  abbrev pub Reaches : ℕ → ℕ → ChunkStore L → ℕ → Type 0
  Reaches p first st k =
      IsHonest p st × ((i : ℕ) → first ≤ i → i < k → L.contains st.chunks i ≡ true)

  -- Putting a chunk's bytes in its file and setting its bit keeps the store honest.
  set_chunk-IsHonest :
      (t : Target L) (st : ChunkStore L) (k : ℕ) (b : Bytes)
      → IsHonest t.block_size st
      → b ≡ slice obj (k * t.block_size) ((k + 1) * t.block_size)
      → t.renames k ≡ true
      → IsHonest t.block_size (set_chunk L t k (put_file L t k b st))
  set_chunk-IsHonest t st k b honest e renamed i = elim (Bool-cases (i == k)) [
    | inl same ↦
        let here : i ≡ k = ground (arith, same) in
        rw (same, renamed)
          (λ c.
            ap some e
            ∙ ap (λ j. some (slice obj (j * t.block_size) ((j + 1) * t.block_size))) (sym here))
    | inr other ↦
        let away : (k == i) ≡ false = ground (arith, other) in
        rw (other, L.contains-set, away) (λ c. honest i c)
  ]

  set_chunk-contains :
      (t : Target L) (st : ChunkStore L) (k i : ℕ)
      → (i ≡ k) ⊎ (L.contains st.chunks i ≡ true)
      → L.contains (set_chunk L t k st).chunks i ≡ true
  set_chunk-contains t st k i (inl e) =
      let same : (k == i) ≡ true = ground (arith, e) in rw (L.contains-set, same) refl
  set_chunk-contains t st k i (inr c) = rw (L.contains-set, c) (ground arith)

  -- A block that the disk takes whole, and that is full or the last of the object, is stored.
  writer_buffer_lem :
      (t : Target L) (st : ChunkStore L) (k : ℕ) (b : Bytes) (current : ℕ) (at_end : Bool)
      → Works t
      → length b ≤ t.block_size
      → (length b ≡ t.block_size) ⊎ (current ≡ t.obj_size)
      → writer_buffer L t st b k current at_end ≡ (true, set_chunk L t k (put_file L t k b st))
  unfolding writer_buffer
  writer_buffer_lem t st k b current at_end (p, size, some_bytes, small, opens, accepts, renames)
        fits whole =
      let known : (t.obj_size == 0) ≡ false = ground (arith, size) in
      let kept : (not (length b == t.block_size) && not (current == t.obj_size)) ≡ false =
        ground (arith, whole) in
      let taken : take (t.accepts k) b ≡ b = take_all (t.accepts k) b (omega (arith, accepts k)) in
      let all : (length b == length b) ≡ true = ground arith in
      rw (opens k, known, kept, taken, all) refl

  slice_to_end : (xs : Bytes) (a x y : ℕ) → length xs ≤ x → x ≤ y → slice xs a x ≡ slice xs a y
  unfolding slice
  slice_to_end xs a x y h l =
      take_all (x - a) (drop a xs) (omega (arith, length-drop a xs))
      ∙ sym (take_all (y - a) (drop a xs) (omega (arith, length-drop a xs)))

  module _ (t : Target L) (works : Works t) (stop : ℕ)
      (ends : (stop ≡ length obj) ⊎ ((j : ℕ) × (stop ≡ j * t.block_size))) where
    -- the end of a body that is inside a block is the end of the object
    at_object_end :
        (k x : ℕ)
        → (stop ≡ length obj) ⊎ ((j : ℕ) × (stop ≡ j * t.block_size))
        → x ≡ stop
        → k * t.block_size < x
        → x < k * t.block_size + t.block_size
        → (k + 1) * t.block_size ≡ k * t.block_size + t.block_size
        → x ≡ length obj
    at_object_end k x (inl e) here lo less next = here ∙ e
    at_object_end k x (inr (j, e)) here lo less next =
        let above = boundary_before t.block_size k j (omega arith) in
        let below = boundary_before t.block_size j (k + 1) (omega arith) in absurd (omega arith)

    last_block :
        (k x : ℕ) (at_end : Bool)
        → k * t.block_size < x
        → x ≤ length obj
        → (x ≡ k * t.block_size + t.block_size)
          ⊎ ((at_end ≡ true) × (x ≡ stop) × (x < k * t.block_size + t.block_size))
        → (k + 1) * t.block_size ≡ k * t.block_size + t.block_size
        → (slice obj (k * t.block_size) x ≡ slice obj (k * t.block_size) ((k + 1) * t.block_size))
          × (x ≤ k * t.block_size + t.block_size)
          × ((length (slice obj (k * t.block_size) x) ≡ t.block_size) ⊎ (x ≡ t.obj_size))
    last_block k x at_end lo hi (inl full) next = (
      ap (λ y. slice obj (k * t.block_size) y) (full ∙ sym next),
      omega arith,
      inl (omega (arith, length-slice obj (k * t.block_size) x hi)),
    )
    last_block k x at_end lo hi (inr (at, here, less)) next =
        let end : x ≡ length obj = at_object_end k x ends here lo less next in
        (
          slice_to_end obj (k * t.block_size) x ((k + 1) * t.block_size) (omega arith)
              (omega arith),
          omega arith,
          inr (omega (arith, works.1)),
        )

    pub flush_events-Takes :
        (first : ℕ)
        → Takes (flush_events L t) t.block_size obj stop (λ st k. Reaches t.block_size first st k)
    flush_events-Takes first = record { takes = take_block }
      where
        take_block :
            (st : ChunkStore L) (k x : ℕ) (at_end : Bool)
            → Reaches t.block_size first st k
            → k * t.block_size < x
            → x ≤ length obj
            → (x ≡ k * t.block_size + t.block_size)
              ⊎ ((at_end ≡ true) × (x ≡ stop) × (x < k * t.block_size + t.block_size))
            → (st' : ChunkStore L) × (writer_buffer L t st
                  (slice obj (k * t.block_size) x)
                  (k % 2 ^ 32)
                  x
                  at_end
                ≡ (true, st'))
              × Reaches t.block_size first st' (suc k)
        take_block st k x at_end (honest, there) lo hi whole =
            let p_pos : 0 < t.block_size = works.0 in
            let index_small : k ≤ k * t.block_size = grind arith in
            let same : k % 2 ^ 32 ≡ k = omega (arith, works.3) in
            let next : (k + 1) * t.block_size ≡ k * t.block_size + t.block_size = grind arith in
            let (content, fits, kept) = last_block k x at_end lo hi whole next in
            let size = length-slice obj (k * t.block_size) x hi in
            (
              set_chunk L t k (put_file L t k (slice obj (k * t.block_size) x) st),
              rw same (
                  writer_buffer_lem t st k (slice obj (k * t.block_size) x) x at_end works
                    (omega (arith, size)) kept),
              (
                set_chunk-IsHonest t st k (slice obj (k * t.block_size) x) honest content
                    (works.6 k),
                λ i l u.
                    set_chunk-contains t (put_file L t k (slice obj (k * t.block_size) x) st) k i
                      (before i l u),
              ),
            )
          where
            before : (i : ℕ) → first ≤ i → i < suc k → (i ≡ k) ⊎ (L.contains st.chunks i ≡ true)
            before i l u = elim (Bool-cases (i == k)) [
              | inl e ↦ inl (ground arith)
              | inr e ↦ inr (there i l (ground arith))
            ]
