-- ===== src/FillRange/Served.antt =====
-- From the request to what the client reads.
use tavern.Prelude.{
  ℕ, ◌+◌, ◌-◌, ◌*◌, ◌/◌, ◌%◌, ◌^◌, ◌≤◌, ◌<◌, ◌≡◌, ◌⊎◌, inl, inr, refl, sym, subst, Bool-cases, ap,
  ◌∙◌, true, false, arith, some, List, length, All, ltb,
}
use tavern.Prelude.Text.{Bytes}
use tavern.Prelude.Slices.{slice, slice-slice, length-slice_past}
use tavern.HttpRange.{build_header_range}
use tavern.Readers.Stream.{Reader, Mode, Delivers, read_all}
use tavern.Readers.Windowed.{read_all-range_reader}
use tavern.Readers.Window.{RangeReader, range_reader, window_reader}
use tavern.FillRange.{
  FillRange, FillRangeContext, lt_int, add_int, fill_window, clip, cut, post_request,
}
use tavern.FillRange.Widen.{Widens, chunk_bounds, lt_int_lem, sub_int_lem, fill_window-Widens}

-- The range of a request inside the object is not cut by `PostRequest`, and its window starts where it did.
clip_lem :
    (size : ℕ) (w : FillRangeContext)
    → size < 2 ^ 63
    → w.new_end < 2 ^ 63
    → w.new_start ≤ w.new_end
    → w.raw_end < size
    → w.raw_end ≤ w.new_end
    → (clip size w).raw_end ≡ w.raw_end
unfolding add_int
clip_lem size w s n o h l =
    let diff = sub_int_lem w.new_end w.new_start o n in
    let longer : lt_int size (w.new_end - w.new_start) ≡ ltb size (w.new_end - w.new_start) =
      lt_int_lem size (w.new_end - w.new_start) s (omega (arith, n)) in
    let as_asked : lt_int w.new_end w.raw_end ≡ false =
      lt_int_lem w.new_end w.raw_end n (omega (arith, n, l)) ∙ ground (arith, l) in
    rw (diff, longer)
      (elim (Bool-cases (ltb size (w.new_end - w.new_start))) [
        | inr e ↦ rw (e, as_asked) refl
        | inl e ↦
            let room : size < w.new_end - w.new_start = ground (arith, e) in
            let whole : (w.new_start + size) % 2 ^ 64 ≡ w.new_start + size =
              omega (arith, room, n) in
            let end =
              sub_int_lem (w.new_start + size) 1 (omega (arith, h)) (omega (arith, room, n)) in
            let kept : lt_int (w.new_start + size - 1) w.raw_end ≡ false =
              lt_int_lem (w.new_start + size - 1) w.raw_end (omega (arith, room, n))
                (omega (arith, h, s))
              ∙ ground (arith, h) in
            rw (e, whole, end, kept) refl
      ])

post_request_cut :
    {S : Type 0} (w : FillRangeContext) (size : ℕ) (s : S)
    → w.flag ≡ true
    → ltb size w.raw_start ≡ false
    → post_request (some w) 206 (some size) s
      ≡ cut
          (range_reader s w.new_start (clip size w).new_end w.raw_start (clip size w).raw_end)
          (build_header_range w.raw_start (clip size w).raw_end size)
unfolding post_request
post_request_cut w size s f there = simp (f, there) refl

same_window :
    {S : Type 0} (s : S) (new_start new_end size : ℕ) {a b c d : ℕ}
    → a ≡ c
    → b ≡ d
    → cut (range_reader s new_start new_end a b) (build_header_range a b size)
      ≡ cut (range_reader s new_start new_end c d) (build_header_range c d size)
same_window s new_start new_end size e f = rw (e, f) refl

end_below :
    (chunk raw end : ℕ)
    → 0 < chunk
    → raw + chunk < 2 ^ 63
    → (end ≡ raw) ⊎ (end + 1 ≡ (raw / chunk + 1) * chunk)
    → end < 2 ^ 63
end_below chunk raw end h l (inl e) = omega (arith, e, l)
end_below chunk raw end h l (inr e) =
    let lo = (chunk_bounds chunk raw h).0 in
    let next : (raw / chunk + 1) * chunk ≡ raw / chunk * chunk + chunk = grind arith in
    omega (arith, e, lo, next, l)

some_injective {ℓ} : {A : Type ℓ} {a b : A} → some a ≡ some b → a ≡ b
some_injective e = cc e

module _ {S : Type 0} (r : Reader S) (rounds : ℕ) (mode : Mode) (P : S → ℕ → Bytes → Type 0)
    (law : Delivers r mode P) where
  -- A request for a range inside an object, which ends below 2^63, as does the range with a chunk more, is
  -- widened, and its 206 response cut back. If the origin gives the bytes of the widened range, as far as the
  -- object has them, without an error, then the client reads just the bytes of its range, with buffers of any
  -- sizes above 0, of which there are enough, and the Content-Range header says this range.
  pub post_request-fill_window :
      (f : FillRange) (fp raw_start raw_end : ℕ) (w : FillRangeContext) (obj : Bytes) (s : S)
      (m : ℕ) (ks : List ℕ)
      → 0 < f.chunk_size
      → raw_start ≤ raw_end
      → raw_end < length obj
      → raw_end + f.chunk_size < 2 ^ 63
      → length obj < 2 ^ 63
      → fill_window f fp raw_start raw_end ≡ some w
      → w.flag ≡ true
      → P s m (slice obj w.new_start (w.new_end + 1))
      → mode.may_fail ≡ false
      → m < rounds
      → All (λ k. 0 < k) ks
      → m < length ks
      → (x : RangeReader S) × (post_request (some w) 206 (some (length obj)) s
          ≡ cut x (build_header_range raw_start raw_end (length obj)))
        × (read_all (window_reader r rounds) ks x ≡ some (slice obj raw_start (raw_end + 1)))
  post_request-fill_window f fp raw_start raw_end w obj s m ks c o i room small found flag given
        sure t a l =
      let (u, known, widens) = fill_window-Widens f fp raw_start raw_end c o room in
      let same : u ≡ w = some_injective (sym known ∙ found) in
      let (rs, re, lo, hi, near, near', at, at', kept) =
        subst (Widens f.chunk_size (f.chunk_size * fp % 2 ^ 64 / 100) raw_start raw_end) same
          widens in
      let below : w.new_end < 2 ^ 63 = end_below f.chunk_size raw_end w.new_end c room at' in
      let there : ltb (length obj) w.raw_start ≡ false = ground (arith, rs) in
      let v = clip (length obj) w in
      let asked : v.raw_end ≡ raw_end =
        clip_lem (length obj) w small below (omega (arith, hi, lo, o)) (omega (arith, re))
          (omega (arith, re))
        ∙ re in
      (
        range_reader s w.new_start v.new_end raw_start raw_end,
        post_request_cut w (length obj) s flag there
            ∙ same_window s w.new_start v.new_end (length obj) rs asked,
        read_all-range_reader r rounds mode P law s m (slice obj w.new_start (w.new_end + 1))
              w.new_start v.new_end raw_start raw_end ks sure given t
              (length-slice_past obj w.new_start (w.new_end + 1) (raw_end + 1) (omega (arith, hi))
                (omega arith))
              lo o a l
            ∙ ap some (
                slice-slice obj w.new_start (w.new_end + 1) raw_start (raw_end + 1) lo (omega arith)
                  (omega (arith, hi))),
      )
