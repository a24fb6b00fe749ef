-- ===== src/Readers/Cut.antt =====
-- `SkipReadCloser` and then `LimitReadCloser` on one reader, as server/middleware/caching/caching.go and
-- the file server of the tests put them, read to the end.
use tavern.Prelude.{ℕ, ◌<◌, ◌≡◌, ◌⊎◌, refl, false, some, List, length, take, drop, All}
use tavern.Prelude.Text.{Bytes}
use tavern.Readers.Stream.{Reader, Mode, Delivers, read_all, read_all_lem}
use tavern.Readers.Limit.{limit_read_closer, limit_reader, limit_reader-Delivers}
use tavern.Readers.Skip.{skip_read_closer, skip_reader, Skipping, skip_reader-Delivers}

module _ {S : Type 0} (r : Reader S) (rounds : ℕ) (mode : Mode) (P : S → ℕ → Bytes → Type 0)
    (law : Delivers r mode P) where
  -- Skipping bytes of a reader that gives more than these without an error, or skipping none of them, and then limiting what is
  -- left, gives the bytes after the skipped ones, up to the limit, whatever the sizes of the reads, if
  -- they are above 0 and there are enough of them.
  pub read_all-limit_skip :
      (s : S) (m : ℕ) (full : Bytes) (skip max : ℕ) (ks : List ℕ)
      → mode.may_fail ≡ false
      → P s m full
      → m < rounds
      → (skip ≡ 0) ⊎ (skip < length full)
      → All (λ k. 0 < k) ks
      → m < length ks
      → read_all
          (limit_reader (skip_reader r rounds))
          ks
          (limit_read_closer (skip_read_closer s skip) max)
        ≡ some (take max (drop skip full))
  unfolding limit_read_closer skip_read_closer
  read_all-limit_skip s m full skip max ks sure p t h a l =
      read_all_lem (limit_reader (skip_reader r rounds))
        (limit_reader-Delivers (skip_reader r rounds) mode (Skipping r rounds mode P law)
          (skip_reader-Delivers r rounds mode P law sure))
        ks (limit_read_closer (skip_read_closer s skip) max) m (take max (drop skip full))
        (drop skip full, (full, p, refl, t, h), refl) a l sure
