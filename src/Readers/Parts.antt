-- ===== src/Readers/Parts.antt =====
-- pkg/iobuf/part_reader.go: `PartsReadCloser`. The parts before `index` are closed and left out.
use mathlib.Core.List.{append-nil, append_assoc}
use tavern.Prelude.{
  ℕ, ◌+◌, ◌≤◌, ◌<◌, ◌≡◌, inl, inr, refl, Bool, true, false, ◌&&◌, Option, none, some, List, [], ◌∷◌,
  ◌++◌, arith, length, if◌then◌else◌, ap, ◌∙◌, Bool-cases, All,
}
use tavern.Prelude.Text.{Bytes}
use tavern.Readers.Stream.{
  Status, nil, eof, failed, bad_count, Reader, Mode, Delivered, Delivers, read_all, read_all_lem,
}

pub record PartsReader (S : Type 0) : Type 0 where
  pub parts : List S
  -- whether the `Close` of the optional closer returns no error
  pub closer : Bool

-- `PartsReadCloser`: nil for no readers
unfoldable pub parts_read_closer : {S : Type 0} → Bool → List S → Option (PartsReader S)
parts_read_closer closer [] = none
parts_read_closer closer (s ∷ ss) = some (record { parts = s ∷ ss; closer = closer })

-- the status after the last byte of a part
abbrev pub end_of_part : {S : Type 0} → List S → Status
end_of_part [] = eof
end_of_part (s ∷ ss) = nil

abbrev pub joined : List Bytes → Bytes
joined [] = []
joined (b ∷ bs) = b ++ joined bs

-- the reads of parts with so many reads each
abbrev pub reads : List ℕ → ℕ
reads [] = 0
reads (m ∷ ms) = m + reads ms + 1

module _ {S : Type 0} (r : Reader S) where
  -- the rest of `Read` after the read of the first part, with the other parts
  abbrev pub after_read : List S → Bool → Bytes × Status × S → Bytes × Status × PartsReader S
  after_read ss closer (d, nil, s) = (d, nil, record { parts = s ∷ ss; closer = closer })
  after_read ss closer (d, failed, s) = (d, failed, record { parts = s ∷ ss; closer = closer })
  after_read ss closer (d, bad_count, s) =
      (d, bad_count, record { parts = s ∷ ss; closer = closer })
  after_read ss closer (d, eof, s) =
      if r.close s
      then (d, end_of_part ss, record { parts = ss; closer = closer })
      else (d, failed, record { parts = ss; closer = closer })

  -- `Read` on the parts that are left
  unfoldable pub read_parts : List S → Bool → ℕ → Bytes × Status × PartsReader S
  read_parts [] closer k = ([], eof, record { parts = []; closer = closer })
  read_parts (s ∷ ss) closer k = after_read ss closer (r.read s k)

  -- `Close`: whether all that is left and the closer close without error
  unfoldable pub close_parts : List S → Bool → Bool
  close_parts [] closer = closer
  close_parts (s ∷ ss) closer = let rest = close_parts ss closer in r.close s && rest

  abbrev pub parts_reader : Reader (PartsReader S)
  parts_reader = record {
    read = λ p k. read_parts p.parts p.closer k;
    close = λ p. close_parts p.parts p.closer;
  }

module _ {S : Type 0} (r : Reader S) (mode : Mode) (P : S → ℕ → Bytes → Type 0)
    (law : Delivers r mode P) where
  -- The bytes of each part are to come, one part after the other.
  abbrev pub Joined : List S → ℕ → Bytes → Type 0
  Joined [] m b = b ≡ []
  Joined (s ∷ ss) m b =
      (m₁ : ℕ) × (b₁ : Bytes) × (m₂ : ℕ) × (b₂ : Bytes) × P s m₁ b₁
      × Joined ss m₂ b₂
      × (b ≡ b₁ ++ b₂)
      × (m₁ + m₂ + 1 ≤ m)

  abbrev pub AreParts : PartsReader S → ℕ → Bytes → Type 0
  AreParts p m b = Joined p.parts m b

  -- Each part has its bytes to come, in so many reads.
  abbrev pub Whole : List S → List ℕ → List Bytes → Type 0
  Whole [] ms bs = bs ≡ []
  Whole (s ∷ ss) ms [] = ⊥
  Whole (s ∷ ss) [] (b ∷ bs) = ⊥
  Whole (s ∷ ss) (m ∷ ms) (b ∷ bs) = P s m b × Whole ss ms bs

  -- what a read after the end of the last part gives too
  abbrev pub joined_mode : Mode
  joined_mode = record { may_fail = mode.may_fail; sticky = true }

  module _ (closes : mode.may_fail ≡ false → (s : S) → r.close s ≡ true) where
    last_part :
        (s : S) (ss : List S) (closer : Bool) (m m₂ k : ℕ) (b b₂ d : Bytes)
        → Joined ss m₂ b₂
        → b ≡ d ++ b₂
        → m₂ < m
        → length d ≤ k
        → Delivered joined_mode AreParts m b k
            (d, end_of_part ss, record { parts = ss; closer = closer })
    last_part s [] closer m m₂ k b b₂ d j e l f =
        (e ∙ ap (λ x. d ++ x) j ∙ append-nil d, f, λ h. (m₂, refl, omega arith))
    last_part s (t ∷ ss) closer m m₂ k b b₂ d j e l f = (m₂, b₂, e, j, f, omega arith, λ h. l)

    after_read-Delivered :
        (ss : List S) (closer : Bool) (m m₁ m₂ k : ℕ) (b b₁ b₂ : Bytes)
        → Joined ss m₂ b₂
        → b ≡ b₁ ++ b₂
        → m₁ + m₂ + 1 ≤ m
        → (a : Bytes × Status × S) → Delivered mode P m₁ b₁ k a
        → Delivered joined_mode AreParts m b k (after_read r ss closer a)
    after_read-Delivered ss closer m m₁ m₂ k b b₁ b₂ j e l (d, nil, s)
          (m', rest, e', q, fits, le, less) =
        (
          m' + m₂ + 1,
          rest ++ b₂,
          e ∙ ap (λ x. x ++ b₂) e' ∙ append_assoc d rest b₂,
          (m', rest, m₂, b₂, q, j, refl, omega arith),
          fits,
          omega arith,
          λ h. omega (arith, less h),
        )
    after_read-Delivered ss closer m m₁ m₂ k b b₁ b₂ j e l (d, failed, s)
          (may, m', rest, e', q, fits, le) =
        (
          may,
          m' + m₂ + 1,
          rest ++ b₂,
          e ∙ ap (λ x. x ++ b₂) e' ∙ append_assoc d rest b₂,
          (m', rest, m₂, b₂, q, j, refl, omega arith),
          fits,
          omega arith,
        )
    after_read-Delivered ss closer m m₁ m₂ k b b₁ b₂ j e l (d, bad_count, s) g = absurd g
    after_read-Delivered ss closer m m₁ m₂ k b b₁ b₂ j e l (d, eof, s) (e', fits, again) =
        elim (Bool-cases (r.close s)) [
          | inl c ↦
              rw c (
                last_part s ss closer m m₂ k b b₂ d j (e ∙ ap (λ x. x ++ b₂) e') (omega arith) fits)
          | inr c ↦ elim (Bool-cases (mode.may_fail)) [
            | inl may ↦ rw c (may, m₂, b₂, e ∙ ap (λ x. x ++ b₂) e', j, fits, omega arith)
            | inr sure ↦ cc (closes sure s, c)
          ]
        ]

    parts-step :
        (ss : List S) (closer : Bool) (m : ℕ) (b : Bytes) (k : ℕ)
        → Joined ss m b
        → Delivered joined_mode AreParts m b k (read_parts r ss closer k)
    unfolding read_parts
    parts-step [] closer m b k j = (j, omega arith, λ h. (m, refl, omega arith))
    parts-step (s ∷ ss) closer m b k (m₁, b₁, m₂, b₂, p, j, e, l) =
        after_read-Delivered ss closer m m₁ m₂ k b b₁ b₂ j e l (r.read s k) (law.step s m₁ b₁ k p)

    -- `PartsReadCloser` delivers the bytes of its parts in order, then the end, and the end again on
    -- later reads. An error of a part, or of its `Close`, comes after a first piece of these bytes;
    -- none comes if no part fails and every part closes.
    pub parts_reader-Delivers : Delivers (parts_reader r) joined_mode AreParts
    parts_reader-Delivers = record { step = λ p m b k j. parts-step p.parts p.closer m b k j }

    Joined-concat :
        (ss : List S) (bs : List Bytes) (ms : List ℕ)
        → Whole ss ms bs
        → Joined ss (reads ms) (joined bs)
    Joined-concat [] bs ms w = ap joined w
    Joined-concat (s ∷ ss) [] ms w = absurd w
    Joined-concat (s ∷ ss) (b ∷ bs) [] w = absurd w
    Joined-concat (s ∷ ss) (b ∷ bs) (m ∷ ms) (p, w) =
        (m, b, reads ms, joined bs, p, Joined-concat ss bs ms w, refl, omega arith)

    -- `PartsReadCloser` on at least one reader, none of which fails, read to the end with buffers of any
    -- sizes above 0, of which there are enough, gives the bytes of the readers, one after the other.
    pub read_all-parts_read_closer :
        (s : S) (ss : List S) (closer : Bool) (bs : List Bytes) (ms ks : List ℕ)
        → mode.may_fail ≡ false
        → Whole (s ∷ ss) ms bs
        → All (λ k. 0 < k) ks
        → reads ms < length ks
        → (p : PartsReader S) × (parts_read_closer closer (s ∷ ss) ≡ some p)
          × (read_all (parts_reader r) ks p ≡ some (joined bs))
    unfolding parts_read_closer
    read_all-parts_read_closer s ss closer bs ms ks sure w a l =
        let p : PartsReader S = record { parts = s ∷ ss; closer = closer } in
        (
          p,
          refl,
          read_all_lem (parts_reader r) parts_reader-Delivers ks p (reads ms) (joined bs)
              (Joined-concat (s ∷ ss) bs ms w) a l sure,
        )
