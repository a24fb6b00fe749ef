-- ===== src/Variants/Limit.antt =====
-- The limit on the variants of an object (server/middleware/caching/caching_vary.go).
use Prim.Native.Nat.{bit_and}
use tavern.Prelude.{
  ℕ, ◌<◌, sym, subst, ◌≤◌, ◌≡◌, refl, Bool, true, false, Option, none, some, List, [], ◌∷◌, ◌++◌,
  arith, length, length-append, leb, ltb, if◌then◌else◌, Bool-cases, inl, inr,
}
use tavern.Prelude.Text.{Bytes, bytes_eq}
use tavern.Metadata.Object.{flag_vary_cache}
use tavern.Storage.Disk.{ObjectId}
use tavern.VaryControl.{clean, compare, elem, vary_data}
use tavern.Variants.{
  VaryMetadata, Request, Response, VaryBucket, VaryState, Converted, metadata, error, lookup_id,
  with_key, discard_id, handle_no_response_vary, upgrade, new_variant, found_variant,
  handle_response_vary, convert_keys, convert_vary_metadata, after_convert, post_request,
}

module _ {B : Type 0} (ops : VaryBucket B) (max_limit now : ℕ) where
  -- the metadata that list the variants: the index if there is one, else the metadata at hand
  abbrev pub index_of : VaryMetadata → Option VaryMetadata → VaryMetadata
  index_of md none = md
  index_of md (some root) = root

  abbrev pub IsLimited : VaryState B → Type 0
  IsLimited c = length (index_of c.md c.rootmd).virtual_key ≤ max_limit

  -- no index yet, and few variants
  abbrev IsFresh : VaryState B → Type 0
  IsFresh c = (length c.md.virtual_key ≤ max_limit) × (c.rootmd ≡ none)

  if-IsFresh :
      (b : Bool) (p q : Converted × VaryState B)
      → (b ≡ true → IsFresh p.1)
      → (b ≡ false → IsFresh q.1)
      → IsFresh (if b then p else q).1
  if-IsFresh true p q f g = f refl
  if-IsFresh false p q f g = g refl

  upgrade-IsFresh :
      (c : VaryState B) (resp : Response) (id : ObjectId) (data_of : Bytes)
      → IsFresh c
      → IsFresh (upgrade ops max_limit now c resp id data_of).1
  unfolding upgrade
  upgrade-IsFresh c resp id data_of h =
      if-IsFresh (ltb max_limit (length (clean (c.md.virtual_key ++ data_of ∷ [])))) _ _ (λ e. h)
        (λ e. (ground (arith, e), h.1))

  found-IsFresh :
      (c : VaryState B) (req : Request) (resp : Response) (ks : List Bytes)
      (r : Option VaryMetadata × B)
      → IsFresh c
      → IsFresh (found_variant ops max_limit now c req resp ks r).1
  found-IsFresh c req resp ks (none, b) h =
      upgrade-IsFresh (record c { bucket = b }) resp (lookup_id ops c req ks)
        (vary_data ks req.headers) h
  found-IsFresh c req resp ks (some vmd, b) h = h

  new-IsFresh :
      (c : VaryState B) (req : Request) (resp : Response) (ks : List Bytes)
      → c.rootmd ≡ none
      → IsFresh (new_variant ops max_limit now (with_key ops c []) req resp ks).1
  new-IsFresh c req resp ks h =
      upgrade-IsFresh (with_key ops c []) resp (lookup_id ops c req ks) (vary_data ks req.headers)
        (omega arith, h)

  chunks_root :
      (b : Bool) (c : VaryState B)
      → c.rootmd ≡ none
      → (if b then discard_id ops c else c).rootmd ≡ none
  chunks_root true c h = h
  chunks_root false c h = h

  response-IsFresh :
      (c : VaryState B) (req : Request) (resp : Response) (ks rs : List Bytes)
      → IsFresh c
      → IsFresh (handle_response_vary ops max_limit now c req resp ks rs).1
  unfolding handle_response_vary
  response-IsFresh c req resp [] rs h =
      new-IsFresh (if ltb 0 (length c.md.chunks) then discard_id ops c else c) req resp rs
        (chunks_root (ltb 0 (length c.md.chunks)) c h.1)
  response-IsFresh c req resp (k ∷ ks) rs h =
      if-IsFresh (compare (k ∷ ks) rs) _ _
        (λ e.
          found-IsFresh c req resp (k ∷ ks) (ops.lookup c.bucket (lookup_id ops c req (k ∷ ks))) h)
        (λ e. new-IsFresh (discard_id ops c) req resp rs h.1)

  added-IsFresh :
      (b : Bool) (c : VaryState B) (v : Bytes)
      → length c.md.virtual_key < max_limit
      → c.rootmd ≡ none
      → IsFresh (if b then c else with_key ops c (c.md.virtual_key ++ v ∷ []))
  added-IsFresh true c v h e = (omega (arith, h), e)
  added-IsFresh false c v h e = (omega (arith, h, length-append c.md.virtual_key (v ∷ [])), e)

  no_response-IsFresh :
      (c : VaryState B) (req : Request) (resp : Response) (ks : List Bytes)
      → IsFresh c
      → IsFresh (handle_no_response_vary ops max_limit now c req resp ks).1
  unfolding handle_no_response_vary
  no_response-IsFresh c req resp [] h = h
  no_response-IsFresh c req resp (k ∷ ks) h =
      let v = vary_data (k ∷ ks) req.headers in
      if-IsFresh (bytes_eq v []) _ _ (λ e. (h.0, refl))
        (λ e.
          if-IsFresh (leb max_limit (length c.md.virtual_key)) _ _ (λ f. h)
            (λ f. added-IsFresh (elem v c.md.virtual_key) c v (ground (arith, f)) h.1))

  convert-IsFresh :
      (c : VaryState B) (req : Request) (resp : Response) (ks rs : List Bytes)
      → IsFresh c
      → IsFresh (convert_keys ops max_limit now c req resp ks rs).1
  convert-IsFresh c req resp ks [] h = no_response-IsFresh c req resp ks h
  convert-IsFresh c req resp ks (r ∷ rs) h = response-IsFresh c req resp ks (r ∷ rs) h

  after-IsLimited :
      (resp : Response) (p : Converted × VaryState B)
      → IsFresh p.1
      → IsLimited (after_convert ops resp p)
  after-IsLimited resp (error e, c) h =
      subst (λ r. length (index_of c.md r).virtual_key ≤ max_limit) (sym h.1) h.0
  after-IsLimited resp (metadata vmd, c) h = h.0

  -- The metadata that list the variants of an object never list more than the limit: for a request that has
  -- not found a variant, whose metadata list no more, `PostRequest` leaves no more in the index that it has
  -- made, or in the metadata where it has made none.
  pub post_request-IsLimited :
      (c : VaryState B) (req : Request) (resp : Response)
      → length c.md.virtual_key ≤ max_limit
      → c.rootmd ≡ none
      → IsLimited (post_request ops max_limit now c req resp)
  unfolding post_request convert_vary_metadata
  post_request-IsLimited c req resp h e =
      elim (Bool-cases (ltb 0 (bit_and c.md.flags flag_vary_cache))) [
        | inl g ↦ simp (g, e) h
        | inr g ↦ simp g (
            after-IsLimited resp
              (convert_keys ops max_limit now c req resp (clean c.md.vary) (clean resp.vary))
              (convert-IsFresh c req resp (clean c.md.vary) (clean resp.vary) (h, e)))
      ]
