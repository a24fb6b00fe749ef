-- ===== src/Readers/Limit.antt =====
-- pkg/iobuf/limit_reader.go: `LimitReadCloser` on `io.LimitReader` of the library.
use tavern.Prelude.{
  ℕ, zero, suc, ◌+◌, ◌-◌, ◌≡◌, refl, [], arith, length, min, take, ap, sym, ◌∙◌, subst,
}
use tavern.Prelude.Text.{Bytes}
use tavern.Prelude.Slices.{take-append_past, take_all, take-nil}
use tavern.Readers.Stream.{Status, nil, eof, failed, bad_count, Reader, Mode, Delivered, Delivers}

pub record LimitedReadCloser (S : Type 0) : Type 0 where
  pub reader : S
  -- what `io.LimitReader` has left
  pub left : ℕ
  pub max : ℕ
  -- the bytes read so far
  pub n : ℕ

-- `LimitReadCloser`; a limit below 0 is 0 to the library
unfoldable pub limit_read_closer : {S : Type 0} → S → ℕ → LimitedReadCloser S
limit_read_closer s max = record { reader = s; left = max; max = max; n = 0 }

abbrev pub limited :
    {S : Type 0} → LimitedReadCloser S → Bytes × Status × S → Bytes × Status × LimitedReadCloser S
limited l (d, st, s) =
    (d, st, record { reader = s; left = l.left - length d; max = l.max; n = l.n + length d })

module _ {S : Type 0} (r : Reader S) where
  -- `Read`
  unfoldable pub read_limited : LimitedReadCloser S → ℕ → Bytes × Status × LimitedReadCloser S
  read_limited l k = elim (l.left) [
    | zero ↦ ([], eof, l)
    | suc left ↦ limited l (r.read l.reader (min k (suc left)))
  ]

  abbrev pub limit_reader : Reader (LimitedReadCloser S)
  limit_reader = record { read = read_limited; close = λ l. r.close l.reader }

module _ {S : Type 0} (r : Reader S) (mode : Mode) (P : S → ℕ → Bytes → Type 0)
    (law : Delivers r mode P) where
  -- The first bytes of the reader, up to the limit, are to come.
  abbrev pub Limited : LimitedReadCloser S → ℕ → Bytes → Type 0
  Limited l m b = (full : Bytes) × P l.reader m full × (b ≡ take l.left full)

  Limited-step :
      (s : S) (left max n m : ℕ) (full : Bytes) (k : ℕ)
      → P s m full
      → Delivered mode Limited m
          (take left full)
          k
          (read_limited r (record { reader = s; left = left; max = max; n = n }) k)
  unfolding read_limited
  Limited-step s zero max n m full k p = (refl, omega arith, λ h. (m, (full, p, refl), omega arith))
  Limited-step s (suc left) max n m full k p =
      after (r.read s (min k (suc left))) (law.step s m full (min k (suc left)) p)
    where
      after :
          (a : Bytes × Status × S)
          → Delivered mode P m full (min k (suc left)) a
          → Delivered mode Limited m
              (take (suc left) full)
              k
              (limited (record { reader = s; left = suc left; max = max; n = n }) a)
      after (d, nil, t) (m', rest, e, q, fits, le, less) = (
        m',
        take (suc left - length d) rest,
        ap (λ x. take (suc left) x) e ∙ take-append_past (suc left) d rest (omega arith),
        (rest, q, refl),
        omega arith,
        le,
        λ h. less (omega arith),
      )
      after (d, eof, t) (e, fits, again) = (
        ap (λ x. take (suc left) x) e ∙ take_all (suc left) d (omega arith),
        omega arith,
        λ h. let (m', q, le) = again h in (m', ([], q, sym (take-nil ℕ (suc left - length d))), le),
      )
      after (d, failed, t) (may, m', rest, e, q, fits, le) = (
        may,
        m',
        take (suc left - length d) rest,
        ap (λ x. take (suc left) x) e ∙ take-append_past (suc left) d rest (omega arith),
        (rest, q, refl),
        omega arith,
        le,
      )
      after (d, bad_count, t) g = absurd g

  -- `LimitReadCloser` delivers the first bytes of its reader, up to the limit, and then the end, with
  -- every error of its reader passed on.
  pub limit_reader-Delivers : Delivers (limit_reader r) mode Limited
  limit_reader-Delivers = record {
    step = λ l m b k (full, p, e).
        subst (λ x. Delivered mode Limited m x k (read_limited r l k)) (sym e)
          (Limited-step l.reader l.left l.max l.n m full k p);
  }
