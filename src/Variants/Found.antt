-- ===== src/Variants/Found.antt =====
-- A variant that is stored is found again (server/middleware/caching/caching_vary.go).
use tavern.Prelude.{
  ℕ, ◌≡◌, ◌⊎◌, inl, inr, refl, sym, ap, subst, ◌∙◌, Bool, true, false, ◌||◌, Option, none, some,
  List, [], ◌∷◌, ◌++◌, length, leb, ltb, if◌then◌else◌,
}
use Prim.Native.Nat.{bit_and}
use tavern.Prelude.Text.{Bytes, bytes_eq}
use tavern.Metadata.Object.{flag_vary_index, flag_vary_cache}
use tavern.Storage.Disk.{ObjectId}
use tavern.VaryControl.{clean, compare, elem, vary_data}
use tavern.VaryControl.Keys.{compare_lem}
use tavern.VaryControl.Again.{clean-append, clean-twice}
use tavern.Variants.{
  VaryMetadata, Request, Response, VaryBucket, VaryState, Converted, metadata, error, lookup_id,
  lookup_variant, with_key, discard_id, plain_variant, handle_no_response_vary, upgrade,
  new_variant, found_variant, handle_response_vary, convert_keys, convert_vary_metadata, root_of,
  after_convert, post_request,
}

-- the keys of an object and of a response together, where one of them has none or both have the same
abbrev pub IsSteady : List Bytes → List Bytes → Type 0
IsSteady ks rs = (ks ≡ []) ⊎ ((rs ≡ []) ⊎ (ks ≡ rs))

or_false : (b : Bool) → (b || false) ≡ b
or_false true = refl
or_false false = refl

or_self : (b : Bool) → (b || b) ≡ b
or_self true = refl
or_self false = refl

or_nil : (vs ws : List Bytes) → clean vs ≡ [] → clean (vs ++ ws) ≡ clean ws
or_nil vs ws h = clean-append vs ws ws (λ k. rw h refl)

nil_or : (vs ws : List Bytes) → clean ws ≡ [] → clean (vs ++ ws) ≡ clean vs
nil_or vs ws h = clean-append vs ws vs (λ k. rw h (or_false (elem k (clean vs))))

same_or : (vs ws : List Bytes) → clean vs ≡ clean ws → clean (vs ++ ws) ≡ clean vs
same_or vs ws h = clean-append vs ws vs (λ k. rw⁻¹ h (or_self (elem k (clean vs))))

module _ {B : Type 0} (ops : VaryBucket B) (max_limit now : ℕ) (req : Request)
    (resp : Response) where
  -- the metadata of a variant have the id, if there are any
  abbrev IsAt : ObjectId → Converted → Type 0
  IsAt id (metadata vmd) = vmd.id ≡ id
  IsAt id (error e) = Unit

  -- a conversion that has kept the values of `Vary` and made no index
  abbrev IsFoundAt : ObjectId → List Bytes → Converted × VaryState B → Type 0
  IsFoundAt id vary p = IsAt id p.0 × (p.1.md.vary ≡ vary) × (p.1.rootmd ≡ none)

  if-IsFoundAt :
      (b : Bool) (id : ObjectId) (vary : List Bytes) (p q : Converted × VaryState B)
      → (b ≡ true → IsFoundAt id vary p)
      → (b ≡ false → IsFoundAt id vary q)
      → IsFoundAt id vary (if b then p else q)
  if-IsFoundAt true id vary p q f g = f refl
  if-IsFoundAt false id vary p q f g = g refl

  upgrade-IsFoundAt :
      (c : VaryState B) (id : ObjectId) (data_of : Bytes)
      → c.rootmd ≡ none
      → IsFoundAt id c.md.vary (upgrade ops max_limit now c resp id data_of)
  unfolding upgrade
  upgrade-IsFoundAt c id data_of h =
      if-IsFoundAt (ltb max_limit (length (clean (c.md.virtual_key ++ data_of ∷ [])))) id c.md.vary
        _ _ (λ e. (tt, refl, h)) (λ e. (refl, refl, h))

  module _
      (law : (b : B) (id : ObjectId) (vmd : VaryMetadata)
        → (ops.lookup b id).0 ≡ some vmd
        → vmd.id ≡ id) where
    found-IsFoundAt :
        (c : VaryState B) (ks : List Bytes) (r : Option VaryMetadata × B)
        → c.rootmd ≡ none
        → ((vmd : VaryMetadata) → r.0 ≡ some vmd → vmd.id ≡ lookup_id ops c req ks)
        → IsFoundAt
            (lookup_id ops c req ks)
            c.md.vary
            (found_variant ops max_limit now c req resp ks r)
    found-IsFoundAt c ks (none, b) h f =
        upgrade-IsFoundAt (record c { bucket = b }) (lookup_id ops c req ks)
          (vary_data ks req.headers) h
    found-IsFoundAt c ks (some vmd, b) h f = (f vmd refl, refl, h)

    discarded-IsFoundAt :
        (b : Bool) (c : VaryState B) (ks : List Bytes)
        → c.rootmd ≡ none
        → IsFoundAt (lookup_id ops c req ks) c.md.vary (
            new_variant ops max_limit now
              (with_key ops (if b then discard_id ops c else c) [])
              req
              resp
              ks)
    discarded-IsFoundAt true c ks h =
        upgrade-IsFoundAt (with_key ops (discard_id ops c) []) (lookup_id ops c req ks)
          (vary_data ks req.headers) h
    discarded-IsFoundAt false c ks h =
        upgrade-IsFoundAt (with_key ops c []) (lookup_id ops c req ks) (vary_data ks req.headers) h

    added-IsFoundAt :
        (b : Bool) (c : VaryState B) (ks : List Bytes) (v : Bytes) (o : Converted)
        → c.rootmd ≡ none
        → IsAt (lookup_id ops c req ks) o
        → IsFoundAt
            (lookup_id ops c req ks)
            c.md.vary
            (o, (if b then c else with_key ops c (c.md.virtual_key ++ v ∷ [])))
    added-IsFoundAt true c ks v o h e = (e, refl, h)
    added-IsFoundAt false c ks v o h e = (e, refl, h)

    convert-IsFoundAt :
        (c : VaryState B) (ks rs keys : List Bytes)
        → c.rootmd ≡ none
        → IsSteady ks rs
        → (ks ≡ [] → rs ≡ keys)
        → (rs ≡ [] → ks ≡ keys)
        → (ks ≡ rs → ks ≡ keys)
        → IsFoundAt
            (lookup_id ops c req keys)
            c.md.vary
            (convert_keys ops max_limit now c req resp ks rs)
    unfolding handle_no_response_vary handle_response_vary
    convert-IsFoundAt c [] [] keys h s f g e = (tt, refl, h)
    convert-IsFoundAt c (k ∷ ks) [] keys h s f g e =
        let v = vary_data (k ∷ ks) req.headers in
        subst
          (λ l.
            IsFoundAt (lookup_id ops c req l) c.md.vary
              (handle_no_response_vary ops max_limit now c req resp (k ∷ ks)))
          (g refl)
          (if-IsFoundAt (bytes_eq v []) (lookup_id ops c req (k ∷ ks)) c.md.vary _ _
            (λ a. (tt, refl, refl))
            (λ a.
              if-IsFoundAt (leb max_limit (length c.md.virtual_key)) (lookup_id ops c req (k ∷ ks))
                c.md.vary _ _ (λ z. (tt, refl, h))
                (λ z.
                  added-IsFoundAt (elem v c.md.virtual_key) c (k ∷ ks) v
                    (metadata (plain_variant ops now c req resp v)) h refl)))
    convert-IsFoundAt c [] (r ∷ rs) keys h s f g e =
        subst
          (λ l.
            IsFoundAt (lookup_id ops c req l) c.md.vary
              (handle_response_vary ops max_limit now c req resp [] (r ∷ rs)))
          (f refl) (discarded-IsFoundAt (ltb 0 (length c.md.chunks)) c (r ∷ rs) h)
    convert-IsFoundAt c (k ∷ ks) (r ∷ rs) keys h (inl s) f g e = absurd (cc s)
    convert-IsFoundAt c (k ∷ ks) (r ∷ rs) keys h (inr (inl s)) f g e = absurd (cc s)
    convert-IsFoundAt c (k ∷ ks) (r ∷ rs) keys h (inr (inr s)) f g e =
        subst
          (λ l.
            IsFoundAt (lookup_id ops c req l) c.md.vary
              (handle_response_vary ops max_limit now c req resp (k ∷ ks) (r ∷ rs)))
          (e s)
          (if-IsFoundAt (compare (k ∷ ks) (r ∷ rs)) (lookup_id ops c req (k ∷ ks)) c.md.vary _ _
            (λ a.
              found-IsFoundAt c (k ∷ ks) (ops.lookup c.bucket (lookup_id ops c req (k ∷ ks))) h
                (λ vmd. law c.bucket (lookup_id ops c req (k ∷ ks)) vmd))
            (λ a. absurd (cc ((compare_lem (k ∷ ks) (r ∷ rs)).1 s, a))))

    root_found :
        (c : VaryState B) (p : Converted × VaryState B) (root : VaryMetadata) (id : ObjectId)
        → IsFoundAt id c.md.vary p
        → (after_convert ops resp p).rootmd ≡ some root
        → ((after_convert ops resp p).id ≡ id)
          × (root.flags ≡ flag_vary_index)
          × (root.vary ≡ clean (c.md.vary ++ resp.vary))
    root_found c (error e, d) root id h f = absurd (cc (h.2, f))
    root_found c (metadata vmd, d) root id h f =
        let same : root_of ops d resp ≡ root = ap (λ o. elim o [ none ↦ root | some r ↦ r ]) f in
        (
          h.0,
          sym (ap (λ r. r.flags) same),
          sym (ap (λ r. r.vary) same) ∙ ap (λ l. clean (l ++ resp.vary)) h.1,
        )

    union_same :
        (vs ws : List Bytes)
        → (clean vs ≡ [] → clean ws ≡ clean (vs ++ ws))
          × (clean ws ≡ [] → clean vs ≡ clean (vs ++ ws))
          × (clean vs ≡ clean ws → clean vs ≡ clean (vs ++ ws))
    union_same vs ws =
        (λ h. sym (or_nil vs ws h), λ h. sym (nil_or vs ws h), λ h. sym (same_or vs ws h))

  -- Where a bucket gives metadata under the id that they have: if `PostRequest` makes an index of variants, for
  -- an object that is no variant and has no index yet, and if the object or the response names no header in
  -- `Vary`, or both name the same, then a later `Lookup` that finds this index, for the same request, asks the
  -- bucket for the id that the new variant has.
  pub post_request-lookup_variant :
      ((b : B) (id : ObjectId) (vmd : VaryMetadata) → (ops.lookup b id).0 ≡ some vmd → vmd.id ≡ id)
      → (c : VaryState B) (root : VaryMetadata) (later : B)
      → ltb 0 (bit_and c.md.flags flag_vary_cache) ≡ false
      → c.rootmd ≡ none
      → IsSteady (clean c.md.vary) (clean resp.vary)
      → (post_request ops max_limit now c req resp).rootmd ≡ some root
      → (root.flags ≡ flag_vary_index)
        × (lookup_variant ops (record c { md = root; bucket = later }) req
            ≡ ops.lookup later (post_request ops max_limit now c req resp).id)
  unfolding post_request convert_vary_metadata lookup_variant
  post_request-lookup_variant law c root later plain fresh steady made =
      let keys = clean (c.md.vary ++ resp.vary) in
      let (f, g, e) = union_same law c.md.vary resp.vary in
      let p = convert_vary_metadata ops max_limit now c req resp in
      let at =
        convert-IsFoundAt law c (clean c.md.vary) (clean resp.vary) keys fresh steady f g e in
      let (id, flags, vary) =
        root_found law c p root (lookup_id ops c req keys) at (simp plain at made) in
      let asked : clean root.vary ≡ keys = ap clean vary ∙ clean-twice (c.md.vary ++ resp.vary) in
      simp plain (
        flags,
        ap (λ l. ops.lookup later (lookup_id ops c req l)) asked ∙ ap (ops.lookup later) (sym id),
      )
