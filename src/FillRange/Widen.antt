-- ===== src/FillRange/Widen.antt =====
-- What the window of a request covers, and how far it goes.
use tavern.Prelude.{
  ℕ, ◌+◌, ◌-◌, ◌*◌, ◌/◌, ◌%◌, ◌^◌, ◌≤◌, ◌<◌, ◌≡◌, ◌⊎◌, inl, inr, refl, false, arith, ◌&&◌, ◌||◌,
  not, ltb, Bool-cases, some,
}
use tavern.FillRange.{
  FillRange, FillRangeContext, is_negative, lt_int, sub_int, add_int, chunk_start, chunk_end,
  narrow, is_invalid, fill_window,
}

-- where a window may begin and end: at the range, or at the bounds of the chunks, with at most so many
-- bytes more
abbrev pub Widens : ℕ → ℕ → ℕ → ℕ → FillRangeContext → Type 0
Widens chunk most raw_start raw_end w =
    (w.raw_start ≡ raw_start)
    × (w.raw_end ≡ raw_end)
    × (w.new_start ≤ raw_start)
    × (raw_end ≤ w.new_end)
    × (raw_start ≤ w.new_start + most)
    × (w.new_end ≤ raw_end + most)
    × ((w.new_start ≡ raw_start) ⊎ (w.new_start ≡ raw_start / chunk * chunk))
    × ((w.new_end ≡ raw_end) ⊎ (w.new_end + 1 ≡ (raw_end / chunk + 1) * chunk))
    × (w.flag ≡ false → (w.new_start ≡ raw_start) × (w.new_end ≡ raw_end))

pub chunk_bounds :
    (chunk x : ℕ) → 0 < chunk → (x / chunk * chunk ≤ x) × (x < (x / chunk + 1) * chunk)
chunk_bounds chunk x h = (grind arith, grind arith)

pub lt_int_lem : (a b : ℕ) → a < 2 ^ 63 → b < 2 ^ 63 → lt_int a b ≡ ltb a b
unfolding lt_int
lt_int_lem a b h l = ground (arith, h, l)

pub sub_int_lem : (a b : ℕ) → b ≤ a → a < 2 ^ 63 → sub_int a b ≡ a - b
unfolding sub_int
sub_int_lem a b h l = omega (arith, h, l)

chunk_start_lem :
    (chunk most raw : ℕ)
    → 0 < chunk
    → raw < 2 ^ 63
    → most < 2 ^ 63
    → (chunk_start chunk most raw ≤ raw)
      × (raw ≤ chunk_start chunk most raw + most)
      × ((chunk_start chunk most raw ≡ raw) ⊎ (chunk_start chunk most raw ≡ raw / chunk * chunk))
chunk_start_lem chunk most raw h l m =
    let (lo, hi) = chunk_bounds chunk raw h in
    let start = raw / chunk * chunk in
    let diff = sub_int_lem raw start lo l in
    let test : lt_int most (raw - start) ≡ ltb most (raw - start) =
      lt_int_lem most (raw - start) m (omega (arith, l)) in
    rw (diff, test) (ground arith, ground arith, ground arith)

chunk_end_lem :
    (chunk most raw : ℕ)
    → 0 < chunk
    → raw + chunk < 2 ^ 63
    → most < 2 ^ 63
    → (raw ≤ chunk_end chunk most raw)
      × (chunk_end chunk most raw ≤ raw + most)
      × (chunk_end chunk most raw < 2 ^ 63)
      × ((chunk_end chunk most raw ≡ raw)
          ⊎ (chunk_end chunk most raw + 1 ≡ (raw / chunk + 1) * chunk))
chunk_end_lem chunk most raw h l m =
    let (lo, hi) = chunk_bounds chunk raw h in
    let next : (raw / chunk + 1) * chunk ≡ raw / chunk * chunk + chunk = grind arith in
    let end = (raw / chunk + 1) * chunk - 1 in
    let word : ((raw / chunk + 1) * chunk + 2 ^ 64 - 1) % 2 ^ 64 ≡ end =
      omega (arith, lo, hi, next, l) in
    let diff = sub_int_lem end raw (omega (arith, hi)) (omega (arith, lo, next, l)) in
    let test : lt_int most (end - raw) ≡ ltb most (end - raw) =
      lt_int_lem most (end - raw) m (omega (arith, lo, next, l)) in
    rw (word, diff, test) (ground arith, ground arith, ground arith, ground arith)

narrow-Widens :
    (chunk most least ns ne rs re : ℕ)
    → ns ≤ rs
    → re ≤ ne
    → rs ≤ ns + most
    → ne ≤ re + most
    → (ns ≡ rs) ⊎ (ns ≡ rs / chunk * chunk)
    → (ne ≡ re) ⊎ (ne + 1 ≡ (re / chunk + 1) * chunk)
    → Widens chunk most rs re (narrow chunk most least ns ne rs re)
narrow-Widens chunk most least ns ne rs re a b c d e f =
    elim (Bool-cases (
      not (lt_int chunk (sub_int ne ns)) && lt_int most (sub_int (add_int (sub_int rs ns) ne) re)
      || lt_int (add_int (sub_int re rs) 1) least)) [
        | inl back ↦ rw back (
          refl,
          refl,
          omega arith,
          omega arith,
          omega arith,
          omega arith,
          inl refl,
          inl refl,
          λ h. (refl, refl),
        )
        | inr kept ↦
            rw kept (refl, refl, a, b, c, d, e, f, λ h. (ground (arith, h), ground (arith, h)))
      ]

valid_lem :
    (ns ne rs re : ℕ) → ns ≤ rs → rs ≤ re → re ≤ ne → ne < 2 ^ 63 → is_invalid ns ne rs re ≡ false
unfolding is_negative
valid_lem ns ne rs re a b c d =
    let raw : lt_int re rs ≡ ltb re rs = lt_int_lem re rs (omega arith) (omega arith) in
    let new : lt_int ne ns ≡ ltb ne ns = lt_int_lem ne ns d (omega arith) in
    ground (arith, raw, new)

-- For a chunk size above 0 and a range whose end is more than a chunk below 2^63, there is a window, and it
-- covers the range that is asked for. It begins at the range or at the start of its first chunk, and ends at
-- the range or at the end of its last chunk; on either side it goes no further than the percentage of the
-- chunk size; and the response is to be cut back unless the window is the range.
pub fill_window-Widens :
    (f : FillRange) (fp raw_start raw_end : ℕ)
    → 0 < f.chunk_size
    → raw_start ≤ raw_end
    → raw_end + f.chunk_size < 2 ^ 63
    → (w : FillRangeContext) × (fill_window f fp raw_start raw_end ≡ some w)
      × Widens f.chunk_size (f.chunk_size * fp % 2 ^ 64 / 100) raw_start raw_end w
unfolding fill_window
fill_window-Widens f fp raw_start raw_end h o l =
    let most = f.chunk_size * fp % 2 ^ 64 / 100 in
    let least = f.chunk_size * ((100 + 2 ^ 64 - fp) % 2 ^ 64) % 2 ^ 64 / 100 in
    let below : most < 2 ^ 63 = omega arith in
    let start = chunk_start f.chunk_size most raw_start in
    let end = chunk_end f.chunk_size most raw_end in
    let (a, c, e) = chunk_start_lem f.chunk_size most raw_start h (omega arith) below in
    let (b, d, small, g) = chunk_end_lem f.chunk_size most raw_end h l below in
    let valid = valid_lem start end raw_start raw_end a o b small in
    (
      narrow f.chunk_size most least start end raw_start raw_end,
      rw valid refl,
      narrow-Widens f.chunk_size most least start end raw_start raw_end a b c d e g,
    )
