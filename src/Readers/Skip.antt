-- ===== src/Readers/Skip.antt =====
-- pkg/iobuf/skip_reader.go: `SkipReadCloser` of a reader that is no `io.Seeker`. (For a file it seeks,
-- which drops the same bytes.)
use tavern.Prelude.{
  ℕ, zero, suc, ◌≤◌, ◌<◌, ◌≡◌, ◌⊎◌, inl, inr, refl, false, Option, none, some, [], arith, length,
  drop, sym, subst,
}
use tavern.Prelude.Text.{Bytes}
use tavern.Readers.Stream.{
  Status, nil, eof, failed, bad_count, Reader, Mode, Delivered, Delivers, discard, discard_lem,
}

pub record SkipReadCloser (S : Type 0) : Type 0 where
  pub reader : S
  pub skip : ℕ

-- `SkipReadCloser`
unfoldable pub skip_read_closer : {S : Type 0} → S → ℕ → SkipReadCloser S
skip_read_closer s skip = record { reader = s; skip = skip }

abbrev pub unskipped : {S : Type 0} → Bytes × Status × S → Bytes × Status × SkipReadCloser S
unskipped (d, st, s) = (d, st, record { reader = s; skip = 0 })

-- after the discard; a discard that did not end within the rounds counts as a failure
abbrev pub after_skip :
    {S : Type 0}
    → (S → Bytes × Status × S)
    → SkipReadCloser S
    → Option (ℕ × Status × S)
    → Bytes × Status × SkipReadCloser S
after_skip more z none = ([], failed, z)
after_skip more z (some (left, nil, s)) = unskipped (more s)
after_skip more z (some (left, eof, s)) = ([], eof, record { reader = s; skip = left })
after_skip more z (some (left, failed, s)) = ([], failed, record { reader = s; skip = left })
after_skip more z (some (left, bad_count, s)) = ([], failed, record { reader = s; skip = left })

module _ {S : Type 0} (r : Reader S) (rounds : ℕ) where
  -- `Read`, where `io.CopyN` takes at most so many rounds
  unfoldable pub read_skipping : SkipReadCloser S → ℕ → Bytes × Status × SkipReadCloser S
  read_skipping z k = elim (z.skip) [
    | zero ↦ unskipped (r.read z.reader k)
    | suc skip ↦ after_skip (λ s. r.read s k) z (discard r rounds (suc skip) z.reader)
  ]

  abbrev pub skip_reader : Reader (SkipReadCloser S)
  skip_reader = record { read = read_skipping; close = λ z. r.close z.reader }

module _ {S : Type 0} (r : Reader S) (rounds : ℕ) (mode : Mode) (P : S → ℕ → Bytes → Type 0)
    (law : Delivers r mode P) where
  -- All but the first bytes of the reader are to come, and there are some of them, if any are skipped.
  abbrev pub Skipping : SkipReadCloser S → ℕ → Bytes → Type 0
  Skipping z m b =
      (full : Bytes) × P z.reader m full
      × (b ≡ drop z.skip full)
      × (m < rounds)
      × ((z.skip ≡ 0) ⊎ (z.skip < length full))

  module _ (sure : mode.may_fail ≡ false) where
    unskipped-Skipping :
        (m m' k : ℕ) (full : Bytes) (a : Bytes × Status × S)
        → m' ≤ m
        → m < rounds
        → Delivered mode P m' full k a
        → Delivered mode Skipping m full k (unskipped a)
    unskipped-Skipping m m' k full (d, nil, s) le h (m'', rest, e, q, fits, le', less) = (
      m'',
      rest,
      e,
      (rest, q, refl, omega arith, inl refl),
      fits,
      omega arith,
      λ j. omega (arith, less j),
    )
    unskipped-Skipping m m' k full (d, eof, s) le h (e, fits, again) = (
      e,
      fits,
      λ j. let (m'', q, le') = again j in (m'', ([], q, refl, omega arith, inl refl), omega arith),
    )
    unskipped-Skipping m m' k full (d, failed, s) le h (may, m'', rest, e, q, fits, le') =
        cc (may, sure)
    unskipped-Skipping m m' k full (d, bad_count, s) le h g = absurd g

    Skipping-step :
        (s : S) (skip m : ℕ) (full : Bytes) (k : ℕ)
        → P s m full
        → m < rounds
        → (skip ≡ 0) ⊎ (skip < length full)
        → Delivered mode Skipping m
            (drop skip full)
            k
            (read_skipping r rounds (record { reader = s; skip = skip }) k)
    unfolding read_skipping
    Skipping-step s zero m full k p h w =
        unskipped-Skipping m m k full (r.read s k) (omega arith) h (law.step s m full k p)
    Skipping-step s (suc skip) m full k p h (inl w) = absurd (omega arith)
    Skipping-step s (suc skip) m full k p h (inr w) =
        let (s', m', done, q, le) = discard_lem r law rounds (suc skip) s m full p h w sure in
        rw done (
          unskipped-Skipping m m' k (drop (suc skip) full) (r.read s' k) le h
            (law.step s' m' (drop (suc skip) full) k q))

    -- `SkipReadCloser` on a reader that does not fail delivers all bytes but those that are skipped, if
    -- there are any others, and the discard has rounds for every read of the reader.
    pub skip_reader-Delivers : Delivers (skip_reader r rounds) mode Skipping
    skip_reader-Delivers = record {
      step = λ z m b k (full, p, e, h, w).
          subst (λ x. Delivered mode Skipping m x k (read_skipping r rounds z k)) (sym e)
            (Skipping-step z.reader z.skip m full k p h w);
    }
