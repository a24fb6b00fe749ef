-- ===== src/Storage/Discard.antt =====
-- `discard` of storage/bucket/disk/disk.go: it ends, and takes out what it should and nothing but that.
use tavern.Prelude.{
  ℕ, zero, suc, ◌+◌, ◌≤◌, ◌<◌, ◌≡◌, ◌⊎◌, inl, inr, refl, sym, ap, ◌∙◌, Bool, true, false, ◌&&◌,
  Option, none, some, List, [], ◌∷◌, arith, if◌then◌else◌, length, Bool-cases,
}
use tavern.Prelude.Text.{Bytes, bytes_eq, bytes_eq_refl}
use tavern.Iobuf.Bitmap.{BitmapLib}
use tavern.Metadata.Object.{is_vary}
use tavern.Storage.Index.{find, erase, find-erase, length-erase, length-erase_found}
use tavern.Storage.Disk.{
  new_virtual_id, Stored, DiskBucket, Env, hash, World, drop_index, remove_chunks, remove_files,
  discard_found, then_files, discard_variants, after_variants, discard, has_result, discard_hash,
}

module _ (L : BitmapLib) (env : Env) where
  -- Every entry of the index stands under the hash of its object.
  abbrev pub IsKeyed : DiskBucket L → Type 0
  IsKeyed d = (k : Bytes) (md : Stored L) → find d.index k ≡ some md → hash L env md.id ≡ k

  -- One bucket holds less than another: entries and files are as there, or gone.
  pub record IsLess (d e : DiskBucket L) : Type 0 where
    pub writes : d.writes ≡ e.writes
    pub removes : d.removes ≡ e.removes
    pub size : length d.index ≤ length e.index
    pub entry : (k : Bytes) → (find d.index k ≡ none) ⊎ (find d.index k ≡ find e.index k)
    pub file : (k : Bytes) (i : ℕ) → (d.files k i ≡ none) ⊎ (d.files k i ≡ e.files k i)

  pub IsLess-refl : (d : DiskBucket L) → IsLess d d
  IsLess-refl d = record {
    writes = refl;
    removes = refl;
    size = omega arith;
    entry = λ k. inr refl;
    file = λ k i. inr refl;
  }

  less_or {ℓ} :
      {A : Type ℓ} (a b c : Option A)
      → (a ≡ none) ⊎ (a ≡ b)
      → (b ≡ none) ⊎ (b ≡ c)
      → (a ≡ none) ⊎ (a ≡ c)
  less_or a b c (inl e) g = inl e
  less_or a b c (inr e) (inl g) = inl (e ∙ g)
  less_or a b c (inr e) (inr g) = inr (e ∙ g)

  pub IsLess-trans : (c d e : DiskBucket L) → IsLess c d → IsLess d e → IsLess c e
  IsLess-trans c d e f g = record {
    writes = f.writes ∙ g.writes;
    removes = f.removes ∙ g.removes;
    size = omega (arith, f.size, g.size);
    entry = λ k. less_or (find c.index k) (find d.index k) (find e.index k) (f.entry k) (g.entry k);
    file = λ k i. less_or (c.files k i) (d.files k i) (e.files k i) (f.file k i) (g.file k i);
  }

  pub IsKeyed-less : (d e : DiskBucket L) → IsLess d e → IsKeyed e → IsKeyed d
  IsKeyed-less d e f h k md g = elim (f.entry k) [ inl n ↦ cc (n, g) | inr n ↦ h k md (sym n ∙ g) ]

  none_less {ℓ} : {A : Type ℓ} (a b : Option A) → (a ≡ none) ⊎ (a ≡ b) → b ≡ none → a ≡ none
  none_less a b (inl e) g = e
  none_less a b (inr e) g = e ∙ g

  none_or {ℓ} :
      {A : Type ℓ} (b : Bool) (x : Option A)
      → ((if b then none else x) ≡ none) ⊎ ((if b then none else x) ≡ x)
  none_or true x = inl refl
  none_or false x = inr refl

  drop-IsLess :
      (b : Bool) (d : DiskBucket L) (k : Bytes)
      → IsLess (if b then record d { index = erase d.index k } else d) d
  drop-IsLess true d k = record {
    writes = refl;
    removes = refl;
    size = length-erase d.index k;
    entry = λ j. rw (find-erase d.index k j) (none_or (bytes_eq k j) (find d.index j));
    file = λ j i. inr refl;
  }
  drop-IsLess false d k = IsLess-refl d

  drop_index-IsLess : (d : DiskBucket L) (k : Bytes) → IsLess (drop_index L env k d) d
  drop_index-IsLess d k = drop-IsLess d.writes d k

  length-drop_index :
      (d : DiskBucket L) (k : Bytes)
      → d.writes ≡ true
      → length (drop_index L env k d).index ≡ length (erase d.index k)
  length-drop_index d k w = simp w refl

  drop_index-find :
      (d : DiskBucket L) (k : Bytes) → d.writes ≡ true → find (drop_index L env k d).index k ≡ none
  drop_index-find d k w = rw w (find-erase d.index k k ∙ simp (bytes_eq_refl k))

  remove_chunks-IsLess : (md : Stored L) (d : DiskBucket L) → IsLess (remove_chunks L env md d) d
  remove_chunks-IsLess md d = record {
    writes = refl;
    removes = refl;
    size = omega arith;
    entry = λ k. inr refl;
    file = λ k i.
        none_or (bytes_eq k (hash L env md.id) && (L.contains md.meta.chunks i && d.removes k i))
          (d.files k i);
  }

  -- a call that has ended, in a bucket that holds less
  pub record IsEnded (d : DiskBucket L) (r : Option (World L env)) : Type 0 where
    pub after : World L env
    pub result : r ≡ some after
    pub smaller : IsLess after.0 d

  -- What `discard` of metadata does to a bucket: it ends in a bucket that holds less, neither the entry of
  -- the object nor those files of its chunks that can be removed.
  pub record IsDiscarded (md : Stored L) (d : DiskBucket L) (r : Option (World L env))
      : Type 0 where
    pub ended : IsEnded d r
    pub entry : find ended.after.0.index (hash L env md.id) ≡ none
    pub chunk :
        (i : ℕ)
        → L.contains md.meta.chunks i ≡ true
        → d.removes (hash L env md.id) i ≡ true
        → ended.after.0.files (hash L env md.id) i ≡ none

  -- that the calls below discard, in a bucket of less than so many entries
  abbrev IsDiscarding : ℕ → (Stored L → World L env → Option (World L env)) → Type 0
  IsDiscarding depth again =
      (md : Stored L) (w : World L env)
      → w.0.writes ≡ true
      → IsKeyed w.0
      → length (erase w.0.index (hash L env md.id)) < depth
      → IsDiscarded md w.0 (again md w)

  module _ (depth : ℕ) (again : Stored L → World L env → Option (World L env))
      (h : IsDiscarding depth again) where
    discard_found-IsEnded :
        (k : Bytes) (o : Option (Stored L)) (w : World L env)
        → find w.0.index k ≡ o
        → w.0.writes ≡ true
        → IsKeyed w.0
        → length w.0.index ≤ depth
        → IsEnded w.0 (discard_found L env again o w)
    discard_found-IsEnded k none w e ws ks n = record {
      after = w;
      result = refl;
      smaller = IsLess-refl w.0;
    }
    discard_found-IsEnded k (some md) w e ws ks n =
        let same : hash L env md.id ≡ k = ks k md e in
        let found : find w.0.index (hash L env md.id) ≡ some md = ap (find w.0.index) same ∙ e in
        let smaller = length-erase_found w.0.index (hash L env md.id) md found in
        (h md w ws ks (omega (arith, smaller, n))).ended

    discard_variants-IsEnded :
        (md : Stored L) (vs : List Bytes) (w : World L env)
        → w.0.writes ≡ true
        → IsKeyed w.0
        → length w.0.index ≤ depth
        → IsEnded w.0 (discard_variants L env again md vs w)
    discard_variants-IsEnded md [] w ws ks n = record {
      after = w;
      result = refl;
      smaller = IsLess-refl w.0;
    }
    discard_variants-IsEnded md (v ∷ vs) (d, s) ws ks n =
        let oid = hash L env (new_virtual_id md.id.path v) in
        let first : IsEnded d (
            if bytes_eq oid (hash L env md.id)
            then some (d, s)
            else discard_found L env again (find d.index oid) (d, s)) =
          elim (Bool-cases (bytes_eq oid (hash L env md.id))) [
            | inl e ↦ rw e record { after = (d, s); result = refl; smaller = IsLess-refl d }
            | inr e ↦ rw e (discard_found-IsEnded oid (find d.index oid) (d, s) refl ws ks n)
          ] in
        let rest =
          discard_variants-IsEnded md vs first.after (first.smaller.writes ∙ ws)
            (IsKeyed-less first.after.0 d first.smaller ks)
            (omega (arith, first.smaller.size, n)) in
        record {
          after = rest.after;
          result =
              ap (then_files L env (discard_variants L env again md vs)) first.result ∙ rest.result;
          smaller = IsLess-trans rest.after.0 first.after.0 d rest.smaller first.smaller;
        }

  -- `discard` with more depth than there are other entries ends, and takes out the object.
  pub discard-IsDiscarded :
      (depth : ℕ) (md : Stored L) (w : World L env)
      → w.0.writes ≡ true
      → IsKeyed w.0
      → length (erase w.0.index (hash L env md.id)) < depth
      → IsDiscarded md w.0 (discard L env depth md w)
  unfolding discard
  discard-IsDiscarded zero md w ws ks n = absurd (omega (arith, n))
  discard-IsDiscarded (suc depth) md (d, s) ws ks n =
      let k = hash L env md.id in
      let e = drop_index L env k d in
      let gone : IsLess e d = drop_index-IsLess d k in
      let vs =
        discard_variants-IsEnded depth (discard L env depth) (discard-IsDiscarded depth) md
          (if is_vary L md.meta then md.meta.virtual_key else []) (e, s) (gone.writes ∙ ws)
          (IsKeyed-less e d gone ks) (omega (arith, length-drop_index d k ws, n)) in
      let before : IsLess vs.after.0 d = IsLess-trans vs.after.0 e d vs.smaller gone in
      record {
        ended = record {
          after = remove_files L env md vs.after;
          result = ap (after_variants L env md) vs.result;
          smaller =
              IsLess-trans (remove_chunks L env md vs.after.0) vs.after.0 d
                (remove_chunks-IsLess md vs.after.0) before;
        };
        entry =
            none_less (find vs.after.0.index k) (find e.index k) (vs.smaller.entry k)
              (drop_index-find d k ws);
        chunk = λ i c g.
            let still : vs.after.0.removes k i ≡ true = ap (λ f. f k i) before.removes ∙ g in
            simp (bytes_eq_refl k, c, still) refl;
      }

  -- `DiscardWithHash` of an object that the bucket has, where the index takes writes and every entry stands
  -- under the hash of its object: there is no error, and the calls for the variants end. Then the index does
  -- not have the object, and those files of its chunks that can be removed are gone; every other entry and every other file is as
  -- it was, or gone.
  pub discard_hash-IsDiscarded :
      (k : Bytes) (md : Stored L) (w : World L env)
      → w.0.writes ≡ true
      → IsKeyed w.0
      → find w.0.index k ≡ some md
      → ((discard_hash L env k w).0 ≡ true) × IsDiscarded md w.0 (discard_hash L env k w).1
  unfolding discard_hash
  discard_hash-IsDiscarded k md (d, s) ws ks found =
      let r =
        discard-IsDiscarded (length d.index + 1) md (d, s) ws ks
          (omega (arith, length-erase d.index (hash L env md.id))) in
      simp found (ap (has_result L env) r.ended.result, r)
