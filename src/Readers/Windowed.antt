-- ===== src/Readers/Windowed.antt =====
-- `RangeReader` of pkg/iobuf/range_reader.go delivers the bytes of its window.
use mathlib.Core.List.{append-nil}
use tavern.Prelude.{
  ℕ, ◌+◌, ◌-◌, ◌≤◌, ◌<◌, ◌≡◌, inl, inr, refl, true, false, some, List, [], ◌++◌, arith, length, ltb,
  take, drop, ap, sym, ◌∙◌, length-append, length-drop, length-take, Bool-cases, All,
}
use tavern.Prelude.Text.{Bytes}
use tavern.Prelude.Slices.{take-append_short, take-append_past, drop-take}
use tavern.Readers.Stream.{
  Status, nil, eof, failed, bad_count, Reader, Mode, Delivered, Delivers, discard_lem, read_all,
  read_all_lem,
}
use tavern.Readers.Window.{
  RangeReader, range_reader, moved, end_window, in_window, read_range, window_reader,
}

module _ {S : Type 0} (r : Reader S) (rounds : ℕ) (mode : Mode) (P : S → ℕ → Bytes → Type 0)
    (law : Delivers r mode P) where
  -- The reader is to give the bytes from `offset` on, at least up to `rawEnd`, and the window those from
  -- `rawStart` up to `rawEnd`.
  abbrev pub Windowed : RangeReader S → ℕ → Bytes → Type 0
  Windowed w m b =
      (full : Bytes) × P w.reader m full
      × (m < rounds)
      × (w.raw_end + 1 - w.offset ≤ length full)
      × (w.offset ≤ w.raw_end)
      × (w.raw_start ≤ w.raw_end)
      × (b ≡ drop (w.raw_start - w.offset) (take (w.raw_end + 1 - w.offset) full))

  -- After the end of the window no read is covered.
  abbrev pub window_mode : Mode
  window_mode = record { may_fail = false; sticky = false }

  module _ (sure : mode.may_fail ≡ false) where
    end_window-Delivered :
        (w : RangeReader S) (d : Bytes) (s : S) (m k : ℕ) (full rest b : Bytes)
        → full ≡ d ++ rest
        → w.offset ≤ w.raw_end
        → w.raw_end < w.offset + length d
        → length d ≤ k
        → b ≡ take (w.raw_end + 1 - w.offset) full
        → Delivered window_mode Windowed m b k (end_window r rounds w d s)
    end_window-Delivered w d s m k full rest b e h l f q =
        let inside : ltb (w.raw_end + 1) w.offset ≡ false = ground arith in
        rw inside (
          q
              ∙ ap (λ x. take (w.raw_end + 1 - w.offset) x) e
              ∙ take-append_short (w.raw_end + 1 - w.offset) d rest (omega arith),
          omega (arith, length-take (w.raw_end + 1 - w.offset) d),
          λ j. cc j,
        )

    in_window-Delivered :
        (w : RangeReader S) (m m₀ k : ℕ) (full b : Bytes)
        → w.raw_start ≤ w.offset
        → w.offset ≤ w.raw_end
        → w.raw_start ≤ w.raw_end
        → m ≤ m₀
        → m₀ < rounds
        → w.raw_end + 1 - w.offset ≤ length full
        → b ≡ take (w.raw_end + 1 - w.offset) full
        → (a : Bytes × Status × S) → Delivered mode P m full k a
        → Delivered window_mode Windowed m₀ b k (in_window r rounds w a)
    in_window-Delivered w m m₀ k full b i h u g t n q (d, nil, s) (m', rest, e, p, f, le, less) =
        elim (Bool-cases (ltb w.raw_end (w.offset + length d))) [
          | inl past ↦ rw past (end_window-Delivered w d s m₀ k full rest b e h (ground arith) f q)
          | inr before ↦
              let fits : length d ≤ w.raw_end + 1 - w.offset = ground arith in
              let none_skipped : w.raw_start - (w.offset + length d) ≡ 0 = omega arith in
              let left : w.raw_end + 1 - w.offset - length d
                  ≡ w.raw_end + 1 - (w.offset + length d) =
                omega arith in
              rw before (
                m',
                take (w.raw_end + 1 - w.offset - length d) rest,
                q
                    ∙ ap (λ x. take (w.raw_end + 1 - w.offset) x) e
                    ∙ take-append_past (w.raw_end + 1 - w.offset) d rest fits,
                (
                  rest,
                  p,
                  omega arith,
                  omega (arith, n, ap length e, length-append d rest),
                  ground arith,
                  u,
                  ap (λ x. take x rest) left
                      ∙ sym (
                          ap (λ x. drop x (take (w.raw_end + 1 - (w.offset + length d)) rest))
                            none_skipped),
                ),
                f,
                omega arith,
                λ j. omega (arith, less j),
              )
        ]
    in_window-Delivered w m m₀ k full b i h u g t n q (d, eof, s) (e, f, again) =
        let past : ltb w.raw_end (w.offset + length d) ≡ true = ground (arith, n, ap length e) in
        rw past (
          end_window-Delivered w d s m₀ k full [] b (e ∙ sym (append-nil d)) h
            (ground (arith, past)) f q)
    in_window-Delivered w m m₀ k full b i h u g t n q (d, failed, s) (may, m', rest, e, p, f, le) =
        cc (may, sure)
    in_window-Delivered w m m₀ k full b i h u g t n q (d, bad_count, s) x = absurd x

    range-step :
        (w : RangeReader S) (m : ℕ) (b : Bytes) (k : ℕ)
        → Windowed w m b
        → Delivered window_mode Windowed m b k (read_range r rounds w k)
    unfolding read_range
    range-step w m b k (full, p, t, n, h, u, q) = elim (Bool-cases (ltb w.offset w.raw_start)) [
      | inl skipping ↦
          let (s', m', done, p', le) =
            discard_lem r law rounds (w.raw_start - w.offset) w.reader m full p t
              (ground (arith, n)) sure in
          let cut : w.raw_end + 1 - w.offset - (w.raw_start - w.offset)
              ≡ w.raw_end + 1 - w.raw_start =
            ground arith in
          rw (skipping, done)
            (in_window-Delivered (moved w s' w.raw_start) m' m k
              (drop (w.raw_start - w.offset) full) b (omega arith) u u le t
              (ground (arith, n, length-drop (w.raw_start - w.offset) full))
              (q
                ∙ drop-take (w.raw_start - w.offset) (w.raw_end + 1 - w.offset) full
                ∙ ap (λ x. take x (drop (w.raw_start - w.offset) full)) cut)
              (r.read s' k) (law.step s' m' (drop (w.raw_start - w.offset) full) k p'))
      | inr there ↦
          let none_skipped : w.raw_start - w.offset ≡ 0 = ground arith in
          rw there (
            in_window-Delivered w m m k full b (ground arith) h u (omega arith) t n
              (q ∙ ap (λ x. drop x (take (w.raw_end + 1 - w.offset) full)) none_skipped)
              (r.read w.reader k) (law.step w.reader m full k p))
    ]

    -- `RangeReader` on a reader that does not fail and gives the bytes from newStart on, at least up to
    -- rawEnd, delivers those from rawStart to rawEnd, if newStart ≤ rawStart ≤ rawEnd, up to its end.
    pub window_reader-Delivers : Delivers (window_reader r rounds) window_mode Windowed
    window_reader-Delivers = record { step = range-step }

  -- A fresh `RangeReader` is to give the bytes of its window.
  pub range_reader-Windowed :
      (s : S) (m : ℕ) (full : Bytes) (new_start new_end raw_start raw_end : ℕ)
      → P s m full
      → m < rounds
      → raw_end + 1 - new_start ≤ length full
      → new_start ≤ raw_start
      → raw_start ≤ raw_end
      → Windowed
          (range_reader s new_start new_end raw_start raw_end)
          m
          (drop (raw_start - new_start) (take (raw_end + 1 - new_start) full))
  unfolding range_reader
  range_reader-Windowed s m full new_start new_end raw_start raw_end p t n h u =
      (full, p, t, n, omega arith, u, refl)

  -- `RangeReader` on a reader that gives the bytes from newStart on, at least up to rawEnd, without an
  -- error, read to the end with buffers of any sizes above 0, of which there are enough, gives the bytes
  -- from rawStart to rawEnd and then the end, if newStart ≤ rawStart ≤ rawEnd.
  pub read_all-range_reader :
      (s : S) (m : ℕ) (full : Bytes) (new_start new_end raw_start raw_end : ℕ) (ks : List ℕ)
      → mode.may_fail ≡ false
      → P s m full
      → m < rounds
      → raw_end + 1 - new_start ≤ length full
      → new_start ≤ raw_start
      → raw_start ≤ raw_end
      → All (λ k. 0 < k) ks
      → m < length ks
      → read_all (window_reader r rounds) ks (range_reader s new_start new_end raw_start raw_end)
        ≡ some (drop (raw_start - new_start) (take (raw_end + 1 - new_start) full))
  read_all-range_reader s m full new_start new_end raw_start raw_end ks sure p t n h u a l =
      read_all_lem (window_reader r rounds) (window_reader-Delivers sure) ks
        (range_reader s new_start new_end raw_start raw_end) m
        (drop (raw_start - new_start) (take (raw_end + 1 - new_start) full))
        (range_reader-Windowed s m full new_start new_end raw_start raw_end p t n h u) a l refl
