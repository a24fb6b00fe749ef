-- ===== src/Caching/Assemble/Body.antt =====
-- The body of a cache hit, from the loop of `lazilyRespond`.
use mathlib.Core.List.{append-nil}
use tavern.Prelude.{
  ℕ, zero, suc, ◌+◌, ◌-◌, ◌*◌, ◌/◌, ◌%◌, ◌^◌, ◌≤◌, ◌<◌, ◌≡◌, ◌≢◌, refl, ap, sym, ◌∙◌, ◌⊎◌, Option,
  none, some, List, [], ◌++◌, arith, ◌==◌, length, if◌then◌else◌, Bool-cases, inl, inr,
}
use tavern.Prelude.Text.{Bytes}
use tavern.Prelude.Slices.{slice, slice-append, slice_empty, take-slice, drop-slice}
use tavern.Iobuf.Block.{build}
use tavern.Caching.Chunks.{Source, Contents, failed, reader, get_contents}
use tavern.Caching.Respond.{skip_head, tail_limit, trim, prepend, respond_from, lazily_respond}
use tavern.Caching.Assemble.Segments.{Serves, Asks, IsSegment, length-build}
use tavern.Caching.Assemble.Contents.{div_bounds, ordered_div, get_contents-Segment, end_small}
use tavern.Caching.Assemble.Total.{NoFaults, get_contents-Gives}

module _ (c : Source) (obj : Bytes) (sv : Serves c obj) (start end : ℕ)
    (ask : Asks c start end) where
  abbrev p : ℕ
  p = c.block_size

  abbrev req : List ℕ
  req = build start end p

  abbrev len : ℕ
  len = end / p - start / p + 1

  -- where the bytes of the chunks from the i-th on begin
  begin : ℕ → ℕ
  begin i = if i == 0 then start else (start / p + i) * p

  -- where the bytes of the chunks before the i-th end
  until : ℕ → ℕ
  until i = if i == len then end + 1 else (start / p + i) * p

  start_split : start ≡ start / p * p + start % p
  start_split = omega (arith, sv.block_pos)

  end_split : end ≡ end / p * p + end % p
  end_split = omega (arith, sv.block_pos)

  start_le : start / p ≤ end / p
  start_le = ordered_div start end p sv.block_pos ask.ordered

  skip_head-Segment :
      (i stop : ℕ) (bytes : Bytes)
      → bytes ≡ slice obj ((start / p + i) * p) stop
      → skip_head c start i bytes ≡ slice obj (begin i) stop
  unfolding skip_head begin
  skip_head-Segment zero stop bytes e = rw e (
      drop-slice obj ((start / p + 0) * p) stop (start % p)
      ∙ ap (λ n. slice obj n stop) (omega (arith, start_split)))
  skip_head-Segment (suc i) stop bytes e = ground arith

  -- the chunks before the last one, counted in bytes
  before_last :
      (i count : ℕ)
      → 0 < count
      → start / p + i + count ≡ end / p + 1
      → (start / p + i) * p + (count - 1) * p ≡ end / p * p
  before_last i zero h e = absurd (omega arith)
  before_last i (suc k) h e =
      let f : start / p + i + k ≡ end / p = omega arith in
      let g : suc k - 1 ≡ k = omega arith in rw g (omega (arith, ap (λ n. n * p) f))

  begin-tail_limit :
      (i count : ℕ)
      → 0 < count
      → start / p + i + count ≡ end / p + 1
      → begin i + tail_limit c start end i count ≡ end + 1
  unfolding tail_limit begin
  begin-tail_limit zero count h e =
      let b = before_last 0 count h e in
      let fits : end < 2 ^ 32 = omega (arith, ask.inside, sv.size_small) in
      let first : (start / p + 0) * p ≡ start / p * p = ap (λ n. n * p) (omega arith) in
      omega (arith, start_split, end_split, ask.ordered)
  begin-tail_limit (suc i) count h e =
      let b = before_last (suc i) count h e in ground (arith, end_split)

  until_last : (i : ℕ) → i ≡ len → until i ≡ end + 1
  unfolding until
  until_last i e = ground arith

  until_inner : (i : ℕ) → i ≢ len → until i ≡ (start / p + i) * p
  unfolding until
  until_inner i e = ground arith

  trim-Segment :
      (i : ℕ) (bytes : Bytes) (count : ℕ)
      → start / p + i ≤ end / p
      → IsSegment p (start / p + i) (end / p) end obj bytes count
      → trim c start end len i count bytes ≡ slice obj (begin i) (until (i + count))
  unfolding trim
  trim-Segment i bytes count h s =
      let skipped = skip_head-Segment i s.stop bytes s.content in
      elim (Bool-cases (i + count == len)) [
        | inl last ↦
            let e : i + count ≡ len = ground arith in
            let lim = begin-tail_limit i count s.count_pos (omega (arith, h, e)) in
            let cut =
              take-slice obj (begin i) s.stop (tail_limit c start end i count)
                (omega (arith, lim, s.outer (omega arith))) in
            ground (arith, skipped, cut, lim, until_last (i + count))
        | inr more ↦
            let e : i + count ≢ len = ground arith in
            let inner : s.stop ≡ (start / p + (i + count)) * p =
              s.inner (omega (arith, s.count_fits, e)) ∙ ap (λ n. n * p) (omega arith) in
            ground (arith, skipped, inner, until_inner (i + count))
      ]

  chunk_mono : (a b : ℕ) → a ≤ b → a * p ≤ b * p
  chunk_mono a b h = grind arith

  begin-le : (i : ℕ) → start / p + i ≤ end / p → begin i ≤ end
  unfolding begin
  begin-le zero h = ask.ordered
  begin-le (suc i) h =
      let b = chunk_mono (start / p + suc i) (end / p) h in ground (arith, end_split)

  begin_mono : (i k : ℕ) → 0 < k → begin i ≤ begin (i + k)
  unfolding begin
  begin_mono zero zero h = absurd (omega arith)
  begin_mono zero (suc k) h =
      ground (arith, chunk_mono (start / p + 1) (start / p + (0 + suc k)), start_split, remainder)
    where
      remainder : start % p < p
      remainder = omega (arith, sv.block_pos)
  begin_mono (suc i) k h = ground (arith, chunk_mono (start / p + suc i) (start / p + (suc i + k)))

  begin-until : (i : ℕ) → 0 < i → i ≢ len → until i ≡ begin i
  unfolding begin until
  begin-until i h e = ground arith

  begin_past : (i : ℕ) → i ≡ len → end + 1 ≤ begin i
  unfolding begin
  begin_past i e =
      let f : (start / p + i) * p ≡ (end / p + 1) * p = ap (λ n. n * p) (omega (arith, start_le)) in
      let g = div_bounds end p sv.block_pos in ground (arith, f, g.1)

  past_end : (i : ℕ) → i ≡ len → slice obj (begin i) (end + 1) ≡ []
  past_end i e = slice_empty obj (begin i) (end + 1) (begin_past i e)

  -- the bytes of one round before those of the rounds to come
  join :
      (i count : ℕ)
      → start / p + i ≤ end / p
      → 0 < count
      → i + count ≤ len
      → slice obj (begin i) (until (i + count)) ++ slice obj (begin (i + count)) (end + 1)
        ≡ slice obj (begin i) (end + 1)
  join i count h k f = elim (Bool-cases (i + count == len)) [
    | inl last ↦
        let e : i + count ≡ len = ground arith in
        rw (past_end (i + count) e, until_last (i + count) e) (append-nil _)
    | inr more ↦
        let e : i + count ≢ len = ground arith in
        let le = begin-le (i + count) (omega (arith, h, f, e)) in
        rw (begin-until (i + count) (omega arith) e) (
          slice-append obj (begin i) (begin (i + count)) (end + 1) (begin_mono i count k)
            (omega arith))
  ]

  length-req : length req ≡ len
  length-req = length-build start end p sv.block_pos ask.ordered (end_small c obj sv start end ask)

  step :
      (i fuel : ℕ) (bytes : Bytes) (count : ℕ)
      → i < len
      → get_contents c req i ≡ reader bytes count
      → respond_from c req start end i (suc fuel)
        ≡ prepend
            (trim c start end len i count bytes)
            (respond_from c req start end (i + count) fuel)
  unfolding respond_from
  step i fuel bytes count h e = ground (arith, length-req)

  step_failed :
      (i fuel : ℕ)
      → i < len
      → get_contents c req i ≡ failed
      → respond_from c req start end i (suc fuel) ≡ none
  unfolding respond_from
  step_failed i fuel h e = ground (arith, length-req)

  step_end : (i fuel : ℕ) → i ≡ len → respond_from c req start end i fuel ≡ some []
  unfolding respond_from
  step_end i zero h = refl
  step_end i (suc fuel) h = ground (arith, length-req)

  prepend-some :
      (bytes : Bytes) (o : Option Bytes) (body : Bytes)
      → prepend bytes o ≡ some body
      → (rest : Bytes) × (o ≡ some rest) × (body ≡ bytes ++ rest)
  prepend-some bytes none body e = cc
  prepend-some bytes (some rest) body e = (rest, refl, ground arith)

  Contents-cases : (r : Contents) → (r ≡ failed) ⊎ ((b : Bytes) × (n : ℕ) × (r ≡ reader b n))
  Contents-cases failed = inl refl
  Contents-cases (reader b n) = inr (b, n, refl)

  -- Whatever the faults, a body that is returned is the one that was asked for.
  respond_from-Sound :
      (fuel i : ℕ) (body : Bytes)
      → i ≤ len
      → len - i < fuel
      → respond_from c req start end i fuel ≡ some body
      → body ≡ slice obj (begin i) (end + 1)
  respond_from-Sound zero i body h l e = absurd (omega arith)
  respond_from-Sound (suc fuel) i body h l e = elim (Bool-cases (i == len)) [
    | inl last ↦
        let f : i ≡ len = ground arith in
        let nothing = past_end i f in
        let done = step_end i (suc fuel) f in ground (arith, nothing, done)
    | inr more ↦
        let less : i < len = ground arith in
        elim (Contents-cases (get_contents c req i)) [
          | inl bad ↦ cc (step_failed i fuel less bad)
          | inr (bytes, count, good) ↦
              let s =
                get_contents-Segment c obj sv start end ask i bytes count (omega (arith, start_le))
                  good in
              let (rest, at, joined) =
                prepend-some _ _ body (sym (step i fuel bytes count less good) ∙ e) in
              let tail =
                respond_from-Sound fuel (i + count) rest (omega (arith, s.count_fits, start_le))
                  (omega (arith, s.count_pos)) at in
              joined
              ∙ rw (trim-Segment i bytes count (omega (arith, start_le)) s, tail)
                  (join i count (omega (arith, start_le)) s.count_pos
                    (omega (arith, s.count_fits, start_le)))
        ]
  ]

  respond_from-total :
      NoFaults c
      → (fuel i : ℕ) → i ≤ len
      → len - i < fuel
      → (body : Bytes) × (respond_from c req start end i fuel ≡ some body)
  respond_from-total ok zero i h l = absurd (omega arith)
  respond_from-total ok (suc fuel) i h l = elim (Bool-cases (i == len)) [
    | inl last ↦ ([], step_end i (suc fuel) (ground arith))
    | inr more ↦
        let less : i < len = ground arith in
        let (bytes, count, good) =
          get_contents-Gives c obj sv start end ask ok i (omega (arith, start_le)) in
        let s =
          get_contents-Segment c obj sv start end ask i bytes count (omega (arith, start_le))
            good in
        let (rest, at) =
          respond_from-total ok fuel (i + count) (omega (arith, s.count_fits, start_le))
            (omega (arith, s.count_pos)) in
        (trim c start end len i count bytes ++ rest, rw (step i fuel bytes count less good, at))
  ]

module _ (c : Source) (obj : Bytes) (start end : ℕ) where
  -- Whatever chunk files are missing, cannot be read or have another size: a body that
  -- `lazilyRespond` returns for a range inside an object of at most 2^32 bytes holds exactly the
  -- bytes of that range, in order.
  pub lazily_respond_sound :
      (body : Bytes)
      → Serves c obj
      → Asks c start end
      → lazily_respond c start end ≡ some body
      → body ≡ slice obj start (end + 1)
  unfolding lazily_respond begin
  lazily_respond_sound body sv ask h =
      let len = length-req c obj sv start end ask in
      respond_from-Sound c obj sv start end ask (length (build start end c.block_size) + 1) 0 body
        (omega arith) (omega (arith, len)) h

  -- For a range inside an object of at most 2^32 bytes, not behind the range of the request's header, with
  -- blocks above 0 and below 2^32 bytes, over chunk files that hold the bytes of the object where they have
  -- the size of their chunk, and an origin that gives the bytes it is asked for: if every chunk file is
  -- missing or whole, `lazilyRespond` returns the bytes of the range.
  pub lazily_respond_total :
      Serves c obj
      → Asks c start end
      → NoFaults c
      → lazily_respond c start end ≡ some (slice obj start (end + 1))
  unfolding lazily_respond begin
  lazily_respond_total sv ask ok =
      let len = length-req c obj sv start end ask in
      let (body, e) =
        respond_from-total c obj sv start end ask ok (length (build start end c.block_size) + 1) 0
          (omega arith) (omega (arith, len)) in
      e
      ∙ ap some (
          respond_from-Sound c obj sv start end ask (length (build start end c.block_size) + 1) 0
            body (omega arith) (omega (arith, len)) e)
