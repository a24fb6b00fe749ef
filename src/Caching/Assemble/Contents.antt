-- ===== src/Caching/Assemble/Contents.antt =====
-- `getContents` gives a segment of the object, on each of its branches.
use mathlib.Core.List.{append-nil}
use tavern.Prelude.{
  ℕ, ◌+◌, ◌-◌, ◌*◌, ◌/◌, ◌^◌, ◌≤◌, ◌<◌, ◌≡◌, refl, ap, sym, ◌∙◌, Bool, Option, none, some, List, [],
  ◌++◌, arith, ltb, get_or, if◌then◌else◌, min, Bool-cases, inl, inr,
}
use tavern.Prelude.Text.{Bytes}
use tavern.Prelude.Slices.{slice, slice-append}
use tavern.Iobuf.Block.{u32, build}
use tavern.Caching.Chunks.{
  Source, ChunkFile, missing, failed, file, Contents, reader, get_contents, first_chunk, fill,
  fill_anchor, fill_before, fill_rest, find_anchor, from_origin, check_chunk_size, sub64, part_size,
}
use tavern.Caching.Assemble.Search.{find_anchor_bounds}
use tavern.Caching.Assemble.Segments.{
  Serves, Asks, IsSegment, length-build, get_or-build, last_of-build,
}

pub div_bounds : (n p : ℕ) → 0 < p → (n / p * p ≤ n) × (n < n / p * p + p)
div_bounds n p h = grind arith

pub ordered_div : (a b p : ℕ) → 0 < p → a ≤ b → a / p ≤ b / p
ordered_div a b p h k = grind arith

mul_mono : (a b p : ℕ) → a ≤ b → a * p ≤ b * p
mul_mono a b p h = grind arith

rest_bounds :
    (size range_end q end p : ℕ)
    → end < q
    → q ≤ end + p
    → end < size
    → end ≤ range_end
    → size ≤ 2 ^ 32
    → p < 2 ^ 32
    → let tail = sub64 q 1 in
      let to = min (sub64 size 1) (if ltb range_end tail then range_end else tail) in
      (end ≤ to) × (to < size)
rest_bounds size range_end q end p a b i h s t =
    let e : sub64 q 1 ≡ q - 1 = omega arith in
    let f : sub64 size 1 ≡ size - 1 = omega arith in rw (e, f) (ground arith)

module _ (c : Source) (obj : Bytes) (sv : Serves c obj) (start end : ℕ)
    (ask : Asks c start end) where
  abbrev pub p : ℕ
  p = c.block_size

  abbrev pub req : List ℕ
  req = build start end p

  pub end_small : end < 2 ^ 32
  end_small = omega (arith, ask.inside, sv.size_small)

  abbrev Segment : ℕ → Bytes → ℕ → Type 0
  Segment idx bytes count = IsSegment p idx (end / p) end obj bytes count

  pub idx_le : (idx : ℕ) → idx ≤ end / p → idx * p ≤ end
  idx_le idx h = omega (arith, mul_mono idx (end / p) p h, (div_bounds end p sv.block_pos).0)

  from_byte_lem : (idx : ℕ) → idx ≤ end / p → u32 (idx * u32 p) ≡ idx * p
  from_byte_lem idx h =
      let e : u32 p ≡ p = omega (arith, sv.block_small) in
      rw e (omega (arith, idx_le idx h, end_small))

  -- the last byte that is asked of the origin when no stored chunk is left
  abbrev pub rest_to : ℕ
  rest_to =
      let tail = sub64 ((end / p + 1) * p) 1 in
      min (sub64 c.size 1) (if ltb c.range_end tail then c.range_end else tail)

  pub rest_to_bounds : (end ≤ rest_to) × (rest_to < c.size)
  rest_to_bounds =
      let q = (end / p + 1) * p in
      let above : end < q = omega (arith, (div_bounds end p sv.block_pos).1) in
      let below : q ≤ end + p = omega (arith, (div_bounds end p sv.block_pos).0) in
      rest_bounds c.size c.range_end q end p above below ask.inside ask.header_end sv.size_small
        sv.block_small

  part_size_lem : part_size c ≡ p
  part_size_lem = ground (arith, sv.block_pos)

  from_origin-reader :
      (o : Option Bytes) (bytes tail out : Bytes) (n count : ℕ)
      → o ≡ some bytes
      → from_origin o tail n ≡ reader out count
      → (out ≡ bytes ++ tail) × (count ≡ n)
  from_origin-reader none bytes tail out n count e h = cc
  from_origin-reader (some b) bytes tail out n count e h = ground arith

  pub fill_rest-eq :
      (i : ℕ)
      → start / p + i ≤ end / p
      → fill_rest c req i
        ≡ from_origin (c.upstream ((start / p + i) * p) rest_to) [] (end / p - start / p + 1 - i)
  unfolding fill_rest
  fill_rest-eq i h = rw (
    get_or-build start end p sv.block_pos ask.ordered end_small i h,
    last_of-build start end p sv.block_pos ask.ordered end_small,
    length-build start end p sv.block_pos ask.ordered end_small,
    from_byte_lem (start / p + i) h,
    part_size_lem,
  )

  start_le : start / p ≤ end / p
  start_le = ordered_div start end p sv.block_pos ask.ordered

  fill_rest-Segment :
      (i : ℕ) (bytes : Bytes) (count : ℕ)
      → start / p + i ≤ end / p
      → fill_rest c req i ≡ reader bytes count
      → Segment (start / p + i) bytes count
  fill_rest-Segment i bytes count h e =
      let idx = start / p + i in
      let le : idx * p ≤ rest_to = omega (arith, idx_le idx h, rest_to_bounds.0) in
      let (same, counted) =
        from_origin-reader (c.upstream (idx * p) rest_to) _ [] bytes _ count
          (sv.origin (idx * p) rest_to le rest_to_bounds.1) (sym (fill_rest-eq i h) ∙ e) in
      record {
        stop = rest_to + 1;
        count_pos = omega (arith, counted, start_le);
        count_fits = omega (arith, counted, start_le);
        content = same ∙ append-nil _;
        inner = λ l. absurd (omega (arith, counted, start_le));
        outer = λ _. omega (arith, rest_to_bounds.0);
      }

  -- the last byte that is asked of the origin before a stored chunk
  anchor_to_lem :
      (a : ℕ)
      → 0 < a
      → a ≤ end / p
      → min (sub64 c.size 1) (sub64 (u32 (a * u32 (part_size c))) 1) + 1 ≡ a * p
  anchor_to_lem a h k =
      let e : u32 (a * u32 (part_size c)) ≡ a * p = rw part_size_lem (from_byte_lem a k) in
      let pos : p ≤ a * p = omega (arith, mul_mono 1 a p h) in
      rw e (omega (arith, idx_le a k, ask.inside, sv.size_small, sv.block_pos))

  abbrev pub anchor_to : ℕ → ℕ
  anchor_to a = min (sub64 c.size 1) (sub64 (u32 (a * u32 (part_size c))) 1)

  pub fill_before-eq :
      (i a : ℕ) (content : Bytes) (stat : Bool)
      → start / p + i ≤ end / p
      → fill_before c req i a (file content stat) ≡ (
          if check_chunk_size c a content stat
          then from_origin
              (c.upstream ((start / p + i) * p) (anchor_to a))
              content
              (a - (start / p + i) + 1)
          else Contents.failed)
  unfolding fill_before
  fill_before-eq i a content stat h = rw (
    get_or-build start end p sv.block_pos ask.ordered end_small i h,
    from_byte_lem (start / p + i) h,
  )

  pub before_origin :
      (i a : ℕ)
      → start / p + i < a
      → a ≤ end / p
      → c.upstream ((start / p + i) * p) (anchor_to a)
        ≡ some (slice obj ((start / p + i) * p) (a * p))
  before_origin i a h k =
      let idx = start / p + i in
      let next : idx * p + p ≤ a * p = omega (arith, mul_mono (idx + 1) a p (omega arith)) in
      let to = anchor_to_lem a (omega arith) k in
      sv.origin (idx * p) (anchor_to a) (omega (arith, sv.block_pos))
        (omega (arith, idx_le a k, ask.inside))
      ∙ ap (λ n. some (slice obj (idx * p) n)) to

  -- a reader up to a chunk's end is a segment
  upto_chunk :
      (idx a : ℕ) (bytes : Bytes) (count : ℕ)
      → idx ≤ a
      → a ≤ end / p
      → count ≡ a - idx + 1
      → bytes ≡ slice obj (idx * p) ((a + 1) * p)
      → Segment idx bytes count
  upto_chunk idx a bytes count h k e f = record {
    stop = (a + 1) * p;
    count_pos = omega arith;
    count_fits = omega arith;
    content = f;
    inner = λ _. ap (λ n. n * p) (omega arith);
    outer = λ l.
        let g : a ≡ end / p = omega arith in
        rw g (omega (arith, (div_bounds end p sv.block_pos).1));
  }

  fill_before-Segment :
      (i a : ℕ) (content : Bytes) (stat : Bool) (bytes : Bytes) (count : ℕ)
      → start / p + i < a
      → a ≤ end / p
      → c.chunk_file a ≡ file content stat
      → fill_before c req i a (file content stat) ≡ reader bytes count
      → Segment (start / p + i) bytes count
  fill_before-Segment i a content stat bytes count h k f e =
      elim (Bool-cases (check_chunk_size c a content stat)) [
        | inr bad ↦ let g = fill_before-eq i a content stat (omega arith) in absurd (ground arith)
        | inl good ↦
            let idx = start / p + i in
            let g = fill_before-eq i a content stat (omega arith) in
            let (same, counted) =
              from_origin-reader (c.upstream (idx * p) (anchor_to a)) _ content bytes (a - idx + 1)
                count (before_origin i a h k) (ground arith) in
            upto_chunk idx a bytes count (omega arith) k counted (
              same
              ∙ ap (λ s. slice obj (idx * p) (a * p) ++ s) (sv.stored a content stat f good)
              ∙ slice-append obj (idx * p) (a * p) ((a + 1) * p) (mul_mono idx a p (omega arith))
                  (mul_mono a (a + 1) p (omega arith)))
      ]

  fill_at :
      (i a : ℕ) (f : ChunkFile) (bytes : Bytes) (count : ℕ)
      → start / p + i < a
      → a ≤ end / p
      → c.chunk_file a ≡ f
      → fill_before c req i a f ≡ reader bytes count
      → Segment (start / p + i) bytes count
  unfolding fill_before
  fill_at i a missing bytes count h k f e = fill_rest-Segment i bytes count (omega arith) e
  fill_at i a failed bytes count h k f e = fill_rest-Segment i bytes count (omega arith) e
  fill_at i a (file content stat) bytes count h k f e =
      fill_before-Segment i a content stat bytes count h k f e

  fill_anchor-Segment :
      (i : ℕ) (o : Option ℕ) (bytes : Bytes) (count : ℕ)
      → start / p + i ≤ end / p
      → find_anchor c (start / p + i) (end / p) ≡ o
      → fill_anchor c req i o ≡ reader bytes count
      → Segment (start / p + i) bytes count
  fill_anchor-Segment i none bytes count h f e = fill_rest-Segment i bytes count h e
  fill_anchor-Segment i (some a) bytes count h f e =
      let (lo, hi) = find_anchor_bounds c (start / p + i) (end / p) a f in
      fill_at i a (c.chunk_file a) bytes count lo hi refl e

  fill-Segment :
      (i : ℕ) (bytes : Bytes) (count : ℕ)
      → start / p + i ≤ end / p
      → fill c req i ≡ reader bytes count
      → Segment (start / p + i) bytes count
  unfolding fill
  fill-Segment i bytes count h e =
      fill_anchor-Segment i (find_anchor c (start / p + i) (end / p)) bytes count h refl (
        rw
          (
            get_or-build start end p sv.block_pos ask.ordered end_small i h,
            last_of-build start end p sv.block_pos ask.ordered end_small,
          )
          at e)

  first_chunk-Segment :
      (i : ℕ) (f : ChunkFile) (bytes : Bytes) (count : ℕ)
      → start / p + i ≤ end / p
      → c.chunk_file (start / p + i) ≡ f
      → first_chunk c req i f ≡ reader bytes count
      → Segment (start / p + i) bytes count
  first_chunk-Segment i missing bytes count h f e = fill-Segment i bytes count h e
  first_chunk-Segment i failed bytes count h f e = cc
  first_chunk-Segment i (file content stat) bytes count h f e =
      let idx = start / p + i in
      let at = get_or-build start end p sv.block_pos ask.ordered end_small i h in
      elim (Bool-cases (check_chunk_size c (get_or req i 0) content stat)) [
        | inr bad ↦ fill-Segment i bytes count h (ground arith)
        | inl good ↦
            upto_chunk idx idx bytes count (omega arith) h (ground arith)
              (ground (arith, sv.stored idx content stat f (rw at at good)))
      ]

  -- What `getContents` gives for the i-th chunk of the range, if it gives a reader, are the bytes of
  -- the object from that chunk on.
  pub get_contents-Segment :
      (i : ℕ) (bytes : Bytes) (count : ℕ)
      → start / p + i ≤ end / p
      → get_contents c req i ≡ reader bytes count
      → Segment (start / p + i) bytes count
  unfolding get_contents
  get_contents-Segment i bytes count h e =
      first_chunk-Segment i (c.chunk_file (start / p + i)) bytes count h refl
        (rw (get_or-build start end p sv.block_pos ask.ordered end_small i h) at e)
