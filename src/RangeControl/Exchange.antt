-- ===== src/RangeControl/Exchange.antt =====
-- `ParseContentRange` reads back the Content-Range values that `ByteRange.ContentRange` and
-- `BuildHeaderRange` print.
use mathlib.Core.List.{append_assoc}
use tavern.Prelude.{
  ℕ, ◌-◌, ◌^◌, ◌≤◌, ◌<◌, ◌≡◌, refl, ap, sym, ◌∙◌, ◌≢◌, ◌⊎◌, zero, suc, false, ◌||◌, some, [], ◌∷◌,
  ◌++◌, arith, All, leb, if◌then◌else◌,
}
use tavern.Prelude.Int.{ℤ, pos, negsuc, pos_part, eqb_ℤ, minus_one, ◌≤ℤ◌}
use tavern.Prelude.Text.{
  Bytes, codes, has_prefix, trim_left, trim_right, trim_space, index_byte, show_ℕ, bytes_eq,
}
use tavern.Prelude.Decimal.{
  IsDigit, show_ℕ-IsDigit, show_ℕ-cons, All-map, trim_right_id, index_byte-append,
  take-length-append, drop-length-append, parse_int-show_ℕ,
}
use tavern.RangeControl.Request.{ByteRange, content_range}
use tavern.RangeControl.Response.{range_resp, satisfied_range, range_value, parse_content_range}
use tavern.RangeControl.Union.{IsValid}
use tavern.HttpRange.{build_header_range}

digit_above : (c : ℕ) → IsDigit c → 32 < c
digit_above c d = omega arith

digit-ne-dash : (c : ℕ) → IsDigit c → c ≢ b'-'
digit-ne-dash c d = omega arith

digit-ne-slash : (c : ℕ) → IsDigit c → c ≢ b'/'
digit-ne-slash c d = omega arith

abbrev pub span : ℕ → ℕ → Bytes
span a b = show_ℕ a ++ b'-' ∷ show_ℕ b

All-append : (P : ℕ → Type 0) (s t : Bytes) → All P s → All P t → All P (s ++ t)
All-append P [] t hs ht = ht
All-append P (c ∷ s) t hs ht = (hs.0, All-append P s t hs.1 ht)

span-ne-slash : (a b : ℕ) → All (λ c. c ≢ b'/') (span a b)
span-ne-slash a b =
    All-append (λ c. c ≢ b'/') (show_ℕ a) (b'-' ∷ show_ℕ b)
      (All-map digit-ne-slash (show_ℕ a) (show_ℕ-IsDigit a))
      (omega arith, All-map digit-ne-slash (show_ℕ b) (show_ℕ-IsDigit b))

-- A text whose end stays as it is keeps what stands in front.
trim_right-append :
    (s : Bytes) (d : ℕ) (t : Bytes)
    → trim_right (d ∷ t) ≡ d ∷ t
    → trim_right (s ++ d ∷ t) ≡ s ++ d ∷ t
unfolding trim_right
trim_right-append [] d t h = h
trim_right-append (c ∷ []) d t h = ground (arith, trim_right-append [] d t h)
trim_right-append (c ∷ e ∷ s) d t h = ground (arith, trim_right-append (e ∷ s) d t h)

trim_right-number : (s : Bytes) (n : ℕ) → trim_right (s ++ show_ℕ n) ≡ s ++ show_ℕ n
trim_right-number s n =
    let (d, t, p) = show_ℕ-cons n in
    let stays = trim_right_id (show_ℕ n) (All-map digit_above (show_ℕ n) (show_ℕ-IsDigit n)) in
    rw p (trim_right-append s d t (rw p at stays))

abbrev header : ℕ → ℕ → ℕ → Bytes
header a b t = codes "bytes " ++ span a b ++ b'/' ∷ show_ℕ t

trim_space-header : (a b t : ℕ) → trim_space (header a b t) ≡ header a b t
unfolding trim_space trim_left
trim_space-header a b t =
    let front = codes "bytes " ++ span a b ++ b'/' ∷ [] in
    let split : header a b t ≡ front ++ show_ℕ t =
      ap (λ s. codes "bytes " ++ s) (sym (append_assoc (span a b) (b'/' ∷ []) (show_ℕ t))) in
    ap trim_right split ∙ trim_right-number front t ∙ sym split

not_star : (n : ℕ) (s t : Bytes) → has_prefix (show_ℕ n ++ s ++ t) (codes "*/") ≡ false
unfolding has_prefix
not_star n s u =
    let (d, t, p) = show_ℕ-cons n in
    let digits : All IsDigit (d ∷ t) = rw p at (show_ℕ-IsDigit n) in rw p (ground arith)

number-ne-star : (n : ℕ) → bytes_eq (show_ℕ n) (codes "*") ≡ false
unfolding bytes_eq
number-ne-star n =
    let (d, t, p) = show_ℕ-cons n in
    let digits : All IsDigit (d ∷ t) = rw p at (show_ℕ-IsDigit n) in rw p (ground arith)

range_resp-numbers :
    (a b t : ℕ)
    → a ≤ b
    → b < t
    → t < 2 ^ 63
    → range_resp (show_ℕ a) (show_ℕ b) (show_ℕ t)
      ≡ some (record { start = pos a; end = pos b; size = pos t; unsatisfied = false })
unfolding range_resp
range_resp-numbers a b t h k l =
    ground (arith, parse_int-show_ℕ a, parse_int-show_ℕ b, parse_int-show_ℕ t, number-ne-star t)

satisfied_range-header :
    (a b t : ℕ)
    → a ≤ b
    → b < t
    → t < 2 ^ 63
    → satisfied_range (span a b ++ b'/' ∷ show_ℕ t)
      ≡ some (record { start = pos a; end = pos b; size = pos t; unsatisfied = false })
unfolding satisfied_range
satisfied_range-header a b t h k l =
    rw
      (
        index_byte-append (span a b) (show_ℕ t) b'/' (span-ne-slash a b),
        take-length-append (span a b) (b'/' ∷ show_ℕ t),
        drop-length-append (span a b) (show_ℕ t) b'/',
        index_byte-append (show_ℕ a) (show_ℕ b) b'-'
            (All-map digit-ne-dash (show_ℕ a) (show_ℕ-IsDigit a)),
        take-length-append (show_ℕ a) (b'-' ∷ show_ℕ b),
        drop-length-append (show_ℕ a) (show_ℕ b) b'-',
      )
      (range_resp-numbers a b t h k l)

parse_content_range-header :
    (a b t : ℕ)
    → a ≤ b
    → b < t
    → t < 2 ^ 63
    → parse_content_range (header a b t)
      ≡ some (record { start = pos a; end = pos b; size = pos t; unsatisfied = false })
unfolding parse_content_range range_value index_byte
parse_content_range-header a b t h k l =
    rw (trim_space-header a b t, not_star a (b'-' ∷ show_ℕ b) (b'/' ∷ show_ℕ t))
      (satisfied_range-header a b t h k l)

-- `ParseContentRange` reads from the text that `BuildHeaderRange` prints the same start, end and
-- size, for start ≤ end < size < 2^63.
pub parse_content_range-build_header_range :
    (a b t : ℕ)
    → a ≤ b
    → b < t
    → t < 2 ^ 63
    → parse_content_range (build_header_range a b t)
      ≡ some (record { start = pos a; end = pos b; size = pos t; unsatisfied = false })
unfolding build_header_range
parse_content_range-build_header_range a b t h k l =
    ap parse_content_range assoc ∙ parse_content_range-header a b t h k l
  where
    assoc : build_header_range a b t ≡ header a b t
    assoc = refl

-- the last byte of a range in an object of `t` bytes
abbrev pub last_in : ByteRange → ℕ → ℕ
last_in r t =
    if eqb_ℤ r.end minus_one || leb (t - 1) (pos_part r.end) then t - 1 else pos_part r.end

content_range-header :
    (a : ℕ) (e : ℤ) (t : ℕ)
    → (e ≡ minus_one) ⊎ (pos a ≤ℤ e)
    → 0 < t
    → t < 2 ^ 63
    → content_range (record { start = pos a; end = e }) t
      ≡ header a (last_in (record { start = pos a; end = e }) t) t
unfolding content_range
content_range-header a (pos b) t v p h = ground arith
content_range-header a (negsuc zero) t v p h = ground arith
content_range-header a (negsuc (suc n)) t v p h = absurd (ground arith)

content_range-read :
    (s e : ℤ) (t : ℕ)
    → IsValid (record { start = s; end = e })
    → pos_part s < t
    → t < 2 ^ 63
    → parse_content_range (content_range (record { start = s; end = e }) t)
      ≡ some (record {
        start = s;
        end = pos (last_in (record { start = s; end = e }) t);
        size = pos t;
        unsatisfied = false;
      })
content_range-read (negsuc a) e t v h k = absurd (omega (arith, v.start_nonneg))
content_range-read (pos a) e t v h k =
    ap parse_content_range (content_range-header a e t v.ordered (omega arith) k)
    ∙ parse_content_range-header a (last_in (record { start = pos a; end = e }) t) t (ground arith)
        (ground arith) k

-- For a range as `Parse` gives it that starts inside an object of `t` bytes, `t` below 2^63,
-- `ParseContentRange` reads from the text that `ByteRange.ContentRange` prints the start, the end
-- cut to the last byte of the object, and the size.
pub parse_content_range-content_range :
    (r : ByteRange) (t : ℕ)
    → IsValid r
    → pos_part r.start < t
    → t < 2 ^ 63
    → parse_content_range (content_range r t)
      ≡ some
          (record { start = r.start; end = pos (last_in r t); size = pos t; unsatisfied = false })
parse_content_range-content_range r t v h k = content_range-read r.start r.end t v h k
