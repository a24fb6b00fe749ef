-- ===== src/Iobuf/Hits.antt =====
-- What `FullHit`, `PartHit`, `BreakInBitmap` and `Build` say of the bytes of a range.
use tavern.Prelude.Division.{div_mono}
use tavern.Prelude.{
  ℕ, zero, suc, ◌+◌, ◌-◌, ◌*◌, ◌/◌, ◌^◌, ◌≤◌, ◌<◌, ◌≡◌, refl, ◌↔◌, inl, inr, Bool, true, false,
  ◌&&◌, ◌||◌, arith, ltb, leb, ◌==◌, if◌then◌else◌, get_elem?, some, none, Bool-cases,
}
use tavern.Iobuf.Bitmap.{BitmapLib}
use tavern.Iobuf.Block.{
  u32, full_from, full_hit, part_from, part_hit, set_from, break_in_bitmap, parts_from, build,
}

div_mul : (k p : ℕ) → 0 < p → k * p / p ≡ k
div_mul k p h = grind arith

mul_le_of_le_div : (k b p : ℕ) → 0 < p → k ≤ b / p → k * p ≤ b
mul_le_of_le_div k b p h q = grind arith

le_mul_of_div_lt : (a k p : ℕ) → 0 < p → a / p < k → a ≤ k * p
le_mul_of_div_lt a k p h q = grind arith

module _ (lib : BitmapLib) where
  open lib use {Bitmap, contains, set, empty}

  -- whether all chunks, and whether some chunk, of so many from one on are there
  unfoldable has_all : Bitmap → ℕ → ℕ → Bool
  has_all fs i zero = true
  has_all fs i (suc n) = let rest = has_all fs (i + 1) n in if contains fs i then rest else false

  unfoldable has_some : Bitmap → ℕ → ℕ → Bool
  has_some fs i zero = false
  has_some fs i (suc n) = let rest = has_some fs (i + 1) n in if contains fs i then true else rest

  -- The loops end after the chunks up to the last one, where its index is not the largest uint32.
  full_from_lem :
      (fs : Bitmap) (last i n m : ℕ)
      → i + m ≡ last + 1
      → last < 2 ^ 32 - 1
      → m < n
      → full_from lib fs last i n ≡ some (has_all fs i m)
  unfolding full_from has_all
  full_from_lem fs last i zero m e l h = absurd (omega (arith, h))
  full_from_lem fs last i (suc n) zero e l h = ground (arith, e)
  full_from_lem fs last i (suc n) (suc m) e l h =
      let next : u32 (i + 1) ≡ i + 1 = omega (arith, e, l) in
      ground
        (arith, next, full_from_lem fs last (i + 1) n m (omega (arith, e)) l (omega (arith, h)))

  part_from_lem :
      (fs : Bitmap) (last i n m : ℕ)
      → i + m ≡ last + 1
      → last < 2 ^ 32 - 1
      → m < n
      → part_from lib fs last i n ≡ some (has_some fs i m)
  unfolding part_from has_some
  part_from_lem fs last i zero m e l h = absurd (omega (arith, h))
  part_from_lem fs last i (suc n) zero e l h = ground (arith, e)
  part_from_lem fs last i (suc n) (suc m) e l h =
      let next : u32 (i + 1) ≡ i + 1 = omega (arith, e, l) in
      ground
        (arith, next, part_from_lem fs last (i + 1) n m (omega (arith, e)) l (omega (arith, h)))

  has_all-at :
      (fs : Bitmap) (i n k : ℕ) → has_all fs i n ≡ true → i ≤ k → k < i + n → contains fs k ≡ true
  unfolding has_all
  has_all-at fs i zero k h p q = absurd (omega arith)
  has_all-at fs i (suc n) k h p q = ground (arith, has_all-at fs (i + 1) n k)

  has_all-each :
      (fs : Bitmap) (i n : ℕ)
      → ((k : ℕ) → i ≤ k → k < i + n → contains fs k ≡ true)
      → has_all fs i n ≡ true
  unfolding has_all
  has_all-each fs i zero h = refl
  has_all-each fs i (suc n) h =
      ground (arith, h i, has_all-each fs (i + 1) n (λ k p q. h k (omega arith) (omega arith)))

  has_some-at :
      (fs : Bitmap) (i n k : ℕ)
      → has_some fs i n ≡ false
      → i ≤ k
      → k < i + n
      → contains fs k ≡ false
  unfolding has_some
  has_some-at fs i zero k h p q = absurd (omega arith)
  has_some-at fs i (suc n) k h p q = ground (arith, has_some-at fs (i + 1) n k)

  has_some-found :
      (fs : Bitmap) (i n : ℕ)
      → has_some fs i n ≡ true
      → (k : ℕ) × (i ≤ k) × (k < i + n) × (contains fs k ≡ true)
  unfolding has_some
  has_some-found fs i zero h = cc
  has_some-found fs i (suc n) h = elim (Bool-cases (contains fs i)) [
    | inl e ↦ (i, omega arith, omega arith, e)
    | inr e ↦
        let (k, p, q, r) = has_some-found fs (i + 1) n (ground arith) in
        (k, omega arith, omega arith, r)
  ]

  module _ (fs : Bitmap) (start end p : ℕ) where
    -- the claim at the chunks, from the claim at the bytes
    at_chunks :
        (b : Bool)
        → 0 < p
        → start ≤ end
        → ((x : ℕ) → start ≤ x → x ≤ end → contains fs (x / p) ≡ b)
        → (k : ℕ) → start / p ≤ k
        → k < start / p + (end / p + 1 - start / p)
        → contains fs k ≡ b
    at_chunks b h o all k l g = elim (Bool-cases (k == start / p)) [
      | inl e ↦ ground (arith, all start)
      | inr e ↦ rw div_mul at (
          all (k * p) (le_mul_of_div_lt start k p h (ground arith))
            (mul_le_of_le_div k end p h (omega (arith, div_mono start end p h o, g))))
    ]

    inside :
        0 < p
        → (x : ℕ) → start ≤ x
        → x ≤ end
        → (start / p ≤ x / p) × (x / p < start / p + (end / p + 1 - start / p))
    inside h x a b =
        (div_mono start x p h a, omega (arith, div_mono x end p h b, div_mono start x p h a))

    -- For a chunk size above 0, start ≤ end, and a last chunk whose index is below 2^32 - 1, `FullHit` of the
    -- chunks of the first and the last byte ends, and it holds exactly when every byte of the range lies in a
    -- chunk that the bitmap has.
    pub full_hit_lem :
        0 < p
        → start ≤ end
        → end / p < 2 ^ 32 - 1
        → (b : Bool) × (full_hit lib (start / p) (end / p) fs ≡ some b)
          × ((b ≡ true) ↔ ((x : ℕ) → start ≤ x → x ≤ end → contains fs (x / p) ≡ true))
    unfolding full_hit
    full_hit_lem h o l =
        let n = end / p + 1 - start / p in
        let count = div_mono start end p h o in
        (
          has_all fs (start / p) n,
          full_from_lem fs (end / p) (start / p) (2 ^ 32 + 1) n (omega (arith, count)) l
              (omega (arith, l)),
          (
            λ e x a b. has_all-at fs (start / p) n (x / p) e (inside h x a b).0 (inside h x a b).1,
            λ f. has_all-each fs (start / p) n (at_chunks true h o f),
          ),
        )

    -- For a chunk size above 0, start ≤ end, and a last chunk whose index is below 2^32 - 1, `PartHit` ends,
    -- and it fails exactly when no byte of the range lies in a chunk that the bitmap has.
    pub part_hit_lem :
        0 < p
        → start ≤ end
        → end / p < 2 ^ 32 - 1
        → (b : Bool) × (part_hit lib (start / p) (end / p) fs ≡ some b)
          × ((b ≡ false) ↔ ((x : ℕ) → start ≤ x → x ≤ end → contains fs (x / p) ≡ false))
    unfolding part_hit
    part_hit_lem h o l =
        let n = end / p + 1 - start / p in
        let count = div_mono start end p h o in
        (
          has_some fs (start / p) n,
          part_from_lem fs (end / p) (start / p) (2 ^ 32 + 1) n (omega (arith, count)) l
              (omega (arith, l)),
          (
            λ e x a b. has_some-at fs (start / p) n (x / p) e (inside h x a b).0 (inside h x a b).1,
            λ f. elim (Bool-cases (has_some fs (start / p) n)) [
              | inl e ↦
                  let (k, a, b, c) = has_some-found fs (start / p) n e in
                  cc (c, at_chunks false h o f k a b)
              | inr e ↦ e
            ],
          ),
        )

  set_from-contains :
      (bm : Bitmap) (i n k : ℕ)
      → i + n ≤ 2 ^ 32
      → contains (set_from lib bm i n) k ≡ ((leb i k && ltb k (i + n)) || contains bm k)
  unfolding set_from
  set_from-contains bm i zero k h = ground arith
  set_from-contains bm i (suc n) k h =
      ground (arith, set_from-contains (set bm (u32 i)) (i + 1) n k, lib.contains-set bm (u32 i) k)

  -- `BreakInBitmap` sets exactly the chunks from that of `start` to that of `end`, while their
  -- indices are below 2^32.
  pub contains-break_in_bitmap :
      (start end p k : ℕ)
      → 0 < p
      → start ≤ end
      → end / p < 2 ^ 32
      → contains (break_in_bitmap lib start end p) k ≡ (leb (start / p) k && leb k (end / p))
  unfolding break_in_bitmap
  contains-break_in_bitmap start end p k h o u = ground (
    arith,
    div_mono start end p h o,
    set_from-contains empty (start / p) (end / p + 1 - start / p) k,
    lib.contains-empty k,
  )

get_elem?-parts_from :
    (i n k : ℕ)
    → i + n ≤ 2 ^ 32
    → get_elem? (parts_from i n) k ≡ (if ltb k n then some (i + k) else none)
unfolding parts_from
get_elem?-parts_from i zero k h = ground arith
get_elem?-parts_from i (suc n) zero h = ground arith
get_elem?-parts_from i (suc n) (suc k) h = ground (arith, get_elem?-parts_from (i + 1) n k)

-- The n-th index that `Build` gives is the n-th chunk of the range, and there are as many as the
-- range has chunks, while the indices are below 2^32.
pub get_elem?-build :
    (start end p k : ℕ)
    → 0 < p
    → start ≤ end
    → end / p < 2 ^ 32
    → get_elem? (build start end p) k
      ≡ (if leb (start / p + k) (end / p) then some (start / p + k) else none)
unfolding build
get_elem?-build start end p k h o u =
    ground (
      arith,
      div_mono start end p h o,
      get_elem?-parts_from (start / p) (end / p + 1 - start / p) k,
    )
