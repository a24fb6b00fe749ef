-- ===== src/Storage/Copy.antt =====
-- The loop of `Migrate` of storage/bucket/disk/disk.go over the chunks.
use tavern.Prelude.{
  ℕ, ◌≤◌, ◌≡◌, inl, inr, refl, sym, ap, ◌∙◌, Bool, true, false, ◌&&◌, ◌||◌, Option, none, some,
  List, [], ◌∷◌, arith, if◌then◌else◌, length, ◌==◌, ==_iff, take, length-take, Bool-cases,
}
use tavern.Prelude.Text.{Bytes, bytes_eq}
use tavern.Prelude.Slices.{take_all}
use tavern.Iobuf.Bitmap.{BitmapLib, has}
use tavern.Storage.Disk.{DiskBucket, Env, write_chunk, copy_rest, copy_chunks}

module _ (L : BitmapLib) (env : Env) (src : DiskBucket L) (k : Bytes) where
  -- One bucket is another but for its files, where it has the listed chunks of the source.
  pub record IsCopied (is : List ℕ) (dest after : DiskBucket L) : Type 0 where
    pub index : after.index ≡ dest.index
    pub writes : after.writes ≡ dest.writes
    pub path : after.path ≡ dest.path
    pub renames : after.renames ≡ dest.renames
    pub file :
        (j : Bytes) (i : ℕ)
        → after.files j i
          ≡ (if bytes_eq j k && (has is i && dest.renames i) then src.files k i else dest.files j i)
    pub chunk : (i : ℕ) → has is i ≡ true → (b : Bytes) × (src.files k i ≡ some b)

  IsCopied-nil : (dest : DiskBucket L) → IsCopied [] dest dest
  IsCopied-nil dest = record {
    index = refl;
    writes = refl;
    path = refl;
    renames = refl;
    file = λ j i. ground arith;
    chunk = λ i h. cc h;
  }

  copied_cons :
      (a x y r : Bool) {A : Type 0} (s t d f : A)
      → t ≡ (if a && ((x || false) && r) then s else d)
      → f ≡ (if a && (y && r) then s else t)
      → f ≡ (if a && ((x || y) && r) then s else d)
  copied_cons a x y r s t d f h g = ground (arith, h, g)

  IsCopied-cons :
      (i : ℕ) (is : List ℕ) (dest mid after : DiskBucket L)
      → IsCopied (i ∷ []) dest mid
      → IsCopied is mid after
      → IsCopied (i ∷ is) dest after
  IsCopied-cons i is dest mid after f g = record {
    index = g.index ∙ f.index;
    writes = g.writes ∙ f.writes;
    path = g.path ∙ f.path;
    renames = g.renames ∙ f.renames;
    file = λ j m.
        copied_cons (bytes_eq j k) (i == m) (has is m) (dest.renames m) (src.files k m)
          (mid.files j m) (dest.files j m) (after.files j m) (f.file j m)
          (g.file j m
            ∙ ap (λ r. if bytes_eq j k && (has is m && r m) then src.files k m else mid.files j m)
                f.renames);
    chunk = λ m h. elim (Bool-cases (i == m)) [
      | inl e ↦ f.chunk m (simp e refl)
      | inr e ↦ g.chunk m (simp e at h)
    ];
  }

  whole : (n : ℕ) (b : Bytes) → (length (take n b) == length b) ≡ true → take n b ≡ b
  whole n b h =
      take_all n b (omega (arith, (==_iff (length (take n b)) (length b)).0 h, length-take n b))

  written_file :
      (i : ℕ) (b c : Bytes) (dest : DiskBucket L)
      → src.files k i ≡ some b
      → c ≡ b
      → (j : Bytes) (m : ℕ)
      → (if bytes_eq j k && (i == m && dest.renames i) then some c else dest.files j m) ≡ (
          if bytes_eq j k && ((i == m || false) && dest.renames m)
          then src.files k m
          else dest.files j m)
  written_file i b c dest e f j m = elim (Bool-cases (i == m)) [
    | inl g ↦
        let at_m : src.files k m ≡ some c =
          ap (src.files k) (sym ((==_iff i m).0 g)) ∙ e ∙ ap some (sym f) in
        let name : dest.renames i ≡ dest.renames m = ap dest.renames ((==_iff i m).0 g) in
        simp (g, at_m, name) refl
    | inr g ↦ simp g (ground arith)
  ]

  has_one :
      (i m : ℕ) (b : Bytes)
      → src.files k i ≡ some b
      → (i == m || false) ≡ true
      → (b : Bytes) × (src.files k m ≡ some b)
  has_one i m b e h = (b, ap (src.files k) (sym ((==_iff i m).0 (ground (arith, h)))) ∙ e)

  opened-IsCopied :
      (opens : Bool) (i : ℕ) (b c : Bytes) (dest : DiskBucket L)
      → src.files k i ≡ some b
      → ((length c == length b) ≡ true → c ≡ b)
      → (let r : Bool × DiskBucket L =
            if opens
            then (
              length c == length b,
              record dest {
                files = λ j m.
                    if bytes_eq j k && (i == m && dest.renames i) then some c else dest.files j m;
              },
            )
            else (false, dest) in
          r.0 ≡ true → IsCopied (i ∷ []) dest r.1)
  opened-IsCopied true i b c dest e f h = record {
    index = refl;
    writes = refl;
    path = refl;
    renames = refl;
    file = written_file i b c dest e (f h);
    chunk = λ m g. has_one i m b e g;
  }
  opened-IsCopied false i b c dest e f h = cc h

  write_chunk-IsCopied :
      (i : ℕ) (b : Bytes) (dest : DiskBucket L)
      → src.files k i ≡ some b
      → (write_chunk L env k i b dest).0 ≡ true
      → IsCopied (i ∷ []) dest (write_chunk L env k i b dest).1
  unfolding write_chunk
  write_chunk-IsCopied i b dest e h =
      opened-IsCopied (dest.opens i) i b (take (dest.accepts i) b) dest e (whole (dest.accepts i) b)
        h

  rest-IsCopied :
      (i : ℕ) (is : List ℕ) (dest : DiskBucket L) (again : DiskBucket L → Bool × DiskBucket L)
      → ((mid : DiskBucket L) → (again mid).0 ≡ true → IsCopied is mid (again mid).1)
      → (r : Bool × DiskBucket L) → (r.0 ≡ true → IsCopied (i ∷ []) dest r.1)
      → (copy_rest L env again r).0 ≡ true
      → IsCopied (i ∷ is) dest (copy_rest L env again r).1
  rest-IsCopied i is dest again f (true, mid) g h =
      IsCopied-cons i is dest mid (again mid).1 (g refl) (f mid h)
  rest-IsCopied i is dest again f (false, mid) g h = cc h

  read-IsCopied :
      (i : ℕ) (is : List ℕ) (dest : DiskBucket L) (again : DiskBucket L → Bool × DiskBucket L)
      → ((mid : DiskBucket L) → (again mid).0 ≡ true → IsCopied is mid (again mid).1)
      → (o : Option Bytes) → src.files k i ≡ o
      → (let r : Bool × DiskBucket L = elim o [
        | none ↦ (false, dest)
        | some b ↦ copy_rest L env again (write_chunk L env k i b dest)
      ] in
          r.0 ≡ true → IsCopied (i ∷ is) dest r.1)
  read-IsCopied i is dest again f none e h = cc h
  read-IsCopied i is dest again f (some b) e h =
      rest-IsCopied i is dest again f (write_chunk L env k i b dest)
        (write_chunk-IsCopied i b dest e) h

  -- Where no error comes back, every chunk is there.
  pub copy_chunks-IsCopied :
      (is : List ℕ) (dest : DiskBucket L)
      → (copy_chunks L env src k is dest).0 ≡ true
      → IsCopied is dest (copy_chunks L env src k is dest).1
  unfolding copy_chunks
  copy_chunks-IsCopied [] dest h = IsCopied-nil dest
  copy_chunks-IsCopied (i ∷ is) dest h =
      read-IsCopied i is dest (copy_chunks L env src k is) (copy_chunks-IsCopied is) (src.files k i)
        refl h

  -- A bucket that takes every chunk of the source.
  pub record IsReady (dest : DiskBucket L) : Type 0 where
    pub opens : (i : ℕ) → dest.opens i ≡ true
    pub accepts : (i : ℕ) (b : Bytes) → src.files k i ≡ some b → length b ≤ dest.accepts i
    pub writes : dest.writes ≡ true

  write_chunk-IsReady :
      (i : ℕ) (b : Bytes) (dest : DiskBucket L)
      → src.files k i ≡ some b
      → IsReady dest
      → ((write_chunk L env k i b dest).0 ≡ true) × IsReady (write_chunk L env k i b dest).1
  unfolding write_chunk
  write_chunk-IsReady i b dest e r =
      let all : take (dest.accepts i) b ≡ b = take_all (dest.accepts i) b (r.accepts i b e) in
      simp (r.opens i) (
        (==_iff (length (take (dest.accepts i) b)) (length b)).1 (ap length all),
        record { opens = r.opens; accepts = r.accepts; writes = r.writes },
      )

  copy_rest-IsReady :
      (again : DiskBucket L → Bool × DiskBucket L) (r : Bool × DiskBucket L)
      → ((mid : DiskBucket L) → IsReady mid → ((again mid).0 ≡ true) × IsReady (again mid).1)
      → (r.0 ≡ true) × IsReady r.1
      → ((copy_rest L env again r).0 ≡ true) × IsReady (copy_rest L env again r).1
  copy_rest-IsReady again (true, mid) f h = f mid h.1
  copy_rest-IsReady again (false, mid) f h = cc h.0

  read-IsReady :
      (i : ℕ) (b : Bytes) (dest : DiskBucket L) (again : DiskBucket L → Bool × DiskBucket L)
      → ((mid : DiskBucket L) → IsReady mid → ((again mid).0 ≡ true) × IsReady (again mid).1)
      → (o : Option Bytes) → o ≡ some b
      → src.files k i ≡ some b
      → IsReady dest
      → (let r : Bool × DiskBucket L = elim o [
        | none ↦ (false, dest)
        | some c ↦ copy_rest L env again (write_chunk L env k i c dest)
      ] in
          (r.0 ≡ true) × IsReady r.1)
  read-IsReady i b dest again f none g e r = cc g
  read-IsReady i b dest again f (some c) g e r =
      copy_rest-IsReady again (write_chunk L env k i c dest) f
        (write_chunk-IsReady i c dest (e ∙ sym g) r)

  -- Where the source has the files of all chunks and the target takes them, no error comes back.
  pub copy_chunks-IsReady :
      (is : List ℕ) (dest : DiskBucket L)
      → IsReady dest
      → ((i : ℕ) → has is i ≡ true → (b : Bytes) × (src.files k i ≡ some b))
      → ((copy_chunks L env src k is dest).0 ≡ true) × IsReady (copy_chunks L env src k is dest).1
  unfolding copy_chunks
  copy_chunks-IsReady [] dest r h = (refl, r)
  copy_chunks-IsReady (i ∷ is) dest r h =
      let (b, e) = h i (simp ((==_iff i i).1 refl) refl) in
      read-IsReady i b dest (copy_chunks L env src k is)
        (λ mid m. copy_chunks-IsReady is mid m (λ j g. h j (ground (arith, g)))) (src.files k i) e e
        r
