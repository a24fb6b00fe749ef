-- ===== src/SharedKv/Counter.antt =====
-- storage/sharedkv/nonekv.go: the counters, four bytes big-endian in the store. The store is a
-- function from keys to values; pebble applies a batch of one write as that write, and its errors
-- (`faults`) stand for what `Get`, `Set` and `Commit` may return.
use tavern.Prelude.{
  ℕ, ◌+◌, ◌-◌, ◌*◌, ◌/◌, ◌%◌, ◌^◌, ◌<◌, ◌≡◌, ◌≢◌, refl, ap, Bool, true, Option, none, some, [], ◌∷◌,
  arith, ltb, if◌then◌else◌,
}
use tavern.Prelude.Text.{bytes_eq_refl, bytes_eq-true, Bytes, bytes_eq}

-- `PutUint32` and `Uint32` of binary.BigEndian
abbrev pub put_u32 : ℕ → Bytes
put_u32 n = n / 2 ^ 24 % 256 ∷ n / 2 ^ 16 % 256 ∷ n / 2 ^ 8 % 256 ∷ n % 256 ∷ []

-- a value of less than four bytes panics (`none`)
abbrev pub u32_of : Bytes → Option ℕ
u32_of (a ∷ b ∷ c ∷ d ∷ rest) = some (a * 2 ^ 24 + b * 2 ^ 16 + c * 2 ^ 8 + d)
u32_of other = none

-- What `Get` of the store gives: a value, no value, or another error.
pub data Got : Type 0 where
  value : Bytes → Got
  not_found broken : Got

pub record Store : Type 0 where
  pub get : Bytes → Got
  -- whether a write and its commit return no error
  pub writes : Bool

unfoldable pub put : Store → Bytes → Bytes → Store
put s k v = record { get = λ k'. if bytes_eq k' k then value v else s.get k'; writes = s.writes }

-- What a counter operation gives: the number and the store, an error, or a panic.
pub data Counted : Type 0 where
  counted : ℕ → Store → Counted
  error panic : Counted

-- the four bytes that `Incr` and `Decr` read; an error of `Get` reads as zero
abbrev pub counter_bytes : Got → Bytes
counter_bytes (value v) = v
counter_bytes not_found = put_u32 0
counter_bytes broken = put_u32 0

abbrev pub write_counter : Store → Bytes → Option ℕ → (ℕ → ℕ) → Counted
write_counter s k none f = panic
write_counter s k (some n) f = if s.writes then counted (f n) (put s k (put_u32 (f n))) else error

abbrev pub add_u32 : ℕ → ℕ → ℕ
add_u32 delta n = (n + delta) % 2 ^ 32

abbrev pub sub_u32 : ℕ → ℕ → ℕ
sub_u32 delta n = if ltb delta n then n - delta else 0

-- `Incr`
unfoldable pub incr : Store → Bytes → ℕ → Counted
incr s k delta = write_counter s k (u32_of (counter_bytes (s.get k))) (add_u32 delta)

-- `Decr`
unfoldable pub decr : Store → Bytes → ℕ → Counted
decr s k delta = write_counter s k (u32_of (counter_bytes (s.get k))) (sub_u32 delta)

-- What `GetCounter` gives.
pub data Read : Type 0 where
  count : ℕ → Read
  missing failed panics : Read

abbrev pub read_u32 : Option ℕ → Read
read_u32 none = panics
read_u32 (some n) = count n

abbrev pub read_got : Got → Read
read_got (value v) = read_u32 (u32_of v)
read_got not_found = missing
read_got broken = failed

-- `GetCounter`
unfoldable pub get_counter : Store → Bytes → Read
get_counter s k = read_got (s.get k)

u32_of-put_u32 : (n : ℕ) → n < 2 ^ 32 → u32_of (put_u32 n) ≡ some n
u32_of-put_u32 n h = ap some (omega arith)

-- the number that a counter stands for, where a missing one is zero
abbrev pub amount : Read → ℕ
amount (count n) = n
amount other = 0

-- The store holds four bytes or nothing under the key.
abbrev pub IsCounter : Got → Type 0
IsCounter (value v) = (n : ℕ) × (n < 2 ^ 32) × (u32_of v ≡ some n)
IsCounter not_found = Unit
IsCounter broken = ⊥

-- A counter operation that gives `n`: it returns n, the counter then reads as n, and the values
-- under the other keys are as before.
abbrev pub Sets : Store → Bytes → Counted → ℕ → Type 0
Sets s k r n =
    (s' : Store) × (r ≡ counted n s')
    × (get_counter s' k ≡ count n)
    × ((k' : Bytes) → k' ≢ k → s'.get k' ≡ s.get k')

module _ (s : Store) (k : Bytes) where
  counter_of :
      (g : Got)
      → IsCounter g
      → (n : ℕ) × (n < 2 ^ 32) × (u32_of (counter_bytes g) ≡ some n) × (amount (read_got g) ≡ n)
  counter_of (value v) (n, l, e) = (n, l, e, ground (arith, e))
  counter_of not_found h = (0, omega arith, refl, refl)
  counter_of broken h = absurd h

  get_counter-put : (n : ℕ) → n < 2 ^ 32 → get_counter (put s k (put_u32 n)) k ≡ count n
  unfolding get_counter put
  get_counter-put n h = ground (arith, bytes_eq_refl k, u32_of-put_u32 n h)

  put_other : (v k' : Bytes) → k' ≢ k → (put s k v).get k' ≡ s.get k'
  unfolding put
  put_other v k' h = ground (arith, bytes_eq-true k' k)

  write_counter_lem :
      (f : ℕ → ℕ) (n m : ℕ)
      → f n ≡ m
      → m < 2 ^ 32
      → s.writes ≡ true
      → Sets s k (write_counter s k (some n) f) m
  write_counter_lem f n m e h w =
      (put s k (put_u32 m), rw (w, e) refl, get_counter-put m h, put_other (put_u32 m))

  -- When the store takes writes and holds a counter or nothing under the key, `Incr` adds `delta`
  -- to the counter, modulo 2^32, and changes no other key.
  pub incr_lem :
      (delta : ℕ)
      → IsCounter (s.get k)
      → s.writes ≡ true
      → Sets s k (incr s k delta) ((amount (get_counter s k) + delta) % 2 ^ 32)
  unfolding incr get_counter
  incr_lem delta c w =
      let (n, l, e, a) = counter_of (s.get k) c in
      rw (a, e) (write_counter_lem (add_u32 delta) n _ refl (omega arith) w)

  -- When the store takes writes and holds a counter or nothing under the key, `Decr` takes `delta`
  -- from the counter, stopping at 0, and changes no other key.
  pub decr_lem :
      (delta : ℕ)
      → IsCounter (s.get k)
      → s.writes ≡ true
      → Sets s k (decr s k delta) (amount (get_counter s k) - delta)
  unfolding decr get_counter
  decr_lem delta c w =
      let (n, l, e, a) = counter_of (s.get k) c in
      rw (a, e) (write_counter_lem (sub_u32 delta) n (n - delta) (ground arith) (omega arith) w)
