-- ===== src/RangeControl/Response.antt =====
-- pkg/x/http/rangecontrol/response_range.go: `ParseContentRange`, and what it reads of the values
-- that `ByteRange.ContentRange` prints. It has one error, which is `none` here.
use tavern.Prelude.{
  ◌+◌, ◌≡◌, refl, ◌⊎◌, Bool, true, false, ◌||◌, Option, none, some, arith, if◌then◌else◌, take,
  drop,
}
use tavern.Prelude.Int.{ℤ, pos, minus_one, ltb_ℤ, leb_ℤ, ◌≤ℤ◌, ◌<ℤ◌}
use tavern.Prelude.Text.{
  Bytes, codes, has_prefix, trim_prefix, index_byte, trim_space, parse_int, bytes_eq, nil,
}

-- `size` is -1 if it is unknown.
pub record ContentRange : Type 0 where
  pub start : ℤ
  pub end : ℤ
  pub size : ℤ
  pub unsatisfied : Bool

-- `err != nil || size < 0` after a call of `ParseInt`
unfoldable pub nonneg : Bytes → Option ℤ
nonneg s =
    let (n, e) = parse_int s in elim e [ nil ↦ if ltb_ℤ n (pos 0) then none else some n | _ ↦ none ]

infixl 5 ◌>>=◌
abbrev pub ◌>>=◌ {ℓ κ} : {A : Type ℓ} {B : Type κ} → Option A → (A → Option B) → Option B
none >>= f = none
some a >>= f = f a

pub >>=-eq-some {ℓ κ} :
    {A : Type ℓ} {B : Type κ} (m : Option A) (f : A → Option B) {b : B}
    → (m >>= f) ≡ some b
    → (a : A) × (m ≡ some a) × (f a ≡ some b)
>>=-eq-some none f h = cc
>>=-eq-some (some a) f h = (a, refl, h)

unfoldable pub unsatisfied_range : Bytes → Option ContentRange
unfolding nonneg
unsatisfied_range size_str = do
  n ← nonneg size_str
  some (record { start = pos 0; end = pos 0; size = n; unsatisfied = true })

-- the end of a range, which must not lie before the start
unfoldable pub range_end : ℤ → Bytes → Option ℤ
range_end start s =
    let (n, e) = parse_int s in elim e [ nil ↦ if ltb_ℤ n start then none else some n | _ ↦ none ]

unfoldable pub complete_length : ℤ → Bytes → Option ℤ
complete_length end s =
    let (n, e) = parse_int s in
    if bytes_eq s (codes "*")
    then some minus_one
    else elim e [ nil ↦ if leb_ℤ n (pos 0) || leb_ℤ n end then none else some n | _ ↦ none ]

unfoldable pub range_resp : Bytes → Bytes → Bytes → Option ContentRange
unfolding nonneg range_end complete_length
range_resp start_str end_str size_part = do
  start ← nonneg start_str
  end ← range_end start end_str
  size ← complete_length end size_part
  some (record { start = start; end = end; size = size; unsatisfied = false })

-- start-end/size or start-end/*
unfoldable pub satisfied_range : Bytes → Option ContentRange
unfolding index_byte
satisfied_range value = do
  slash ← index_byte value b'/'
  let range_part = take slash value
  dash ← index_byte range_part b'-'
  range_resp (take dash range_part) (drop (dash + 1) range_part) (drop (slash + 1) value)

-- what stands behind the unit
unfoldable pub range_value : Bytes → Option ContentRange
unfolding has_prefix trim_prefix
range_value value =
    if has_prefix value (codes "*/")
    then unsatisfied_range (trim_prefix value (codes "*/"))
    else satisfied_range value

unfoldable pub parse_content_range : Bytes → Option ContentRange
unfolding trim_space index_byte
parse_content_range raw = do
  let header = trim_space raw
  sp ← index_byte header b' '
  range_value (drop (sp + 1) header)

-- What a Content-Range can say: either an unsatisfied range with a size, or a range that lies
-- inside the object, whose size may be unknown.
pub record IsContentRange (r : ContentRange) : Type 0 where
  pub satisfied :
      r.unsatisfied ≡ false
      → (pos 0 ≤ℤ r.start) × (r.start ≤ℤ r.end) × ((r.size ≡ minus_one) ⊎ (r.end <ℤ r.size))
  pub unsatisfied : r.unsatisfied ≡ true → pos 0 ≤ℤ r.size

range_resp-IsContentRange :
    (a b c : Bytes) (r : ContentRange) → range_resp a b c ≡ some r → IsContentRange r
unfolding range_resp
range_resp-IsContentRange a b c r h = ground arith

unsatisfied_range-IsContentRange :
    (s : Bytes) (r : ContentRange) → unsatisfied_range s ≡ some r → IsContentRange r
unfolding unsatisfied_range
unsatisfied_range-IsContentRange s r h = ground arith

satisfied_range-IsContentRange :
    (value : Bytes) (r : ContentRange) → satisfied_range value ≡ some r → IsContentRange r
unfolding satisfied_range
satisfied_range-IsContentRange value r h =
    let (slash, _, e) = >>=-eq-some (index_byte value b'/') _ h in
    let (dash, _, f) = >>=-eq-some (index_byte (take slash value) b'-') _ e in
    range_resp-IsContentRange (take dash (take slash value)) (drop (dash + 1) (take slash value))
      (drop (slash + 1) value) r f

range_value-IsContentRange :
    (value : Bytes) (r : ContentRange) → range_value value ≡ some r → IsContentRange r
unfolding range_value
range_value-IsContentRange value r h = ground (
  arith,
  satisfied_range-IsContentRange value r,
  unsatisfied_range-IsContentRange (trim_prefix value (codes "*/")) r,
)

-- Every Content-Range that `ParseContentRange` accepts is one that a response can mean: an
-- unsatisfied range with a size that is not negative, or a range 0 ≤ start ≤ end that lies below
-- the size, where the size is known.
pub parse_content_range-IsContentRange :
    (header : Bytes) (r : ContentRange) → parse_content_range header ≡ some r → IsContentRange r
unfolding parse_content_range
parse_content_range-IsContentRange header r h =
    let (sp, _, e) = >>=-eq-some (index_byte (trim_space header) b' ') _ h in
    range_value-IsContentRange (drop (sp + 1) (trim_space header)) r e
