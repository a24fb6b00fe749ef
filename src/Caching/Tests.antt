-- ===== src/Caching/Tests.antt =====
-- A cache with one chunk stored, one missing and one of a wrong size, and the theorems applied.
use tavern.Prelude.{
  ℕ, zero, suc, ◌+◌, ◌*◌, ◌≡◌, refl, ap, sym, ◌⊎◌, inl, inr, Bool, true, some, [], ◌∷◌, arith,
}
use tavern.Prelude.Text.{Bytes}
use tavern.Prelude.Slices.{slice}
use tavern.Caching.Chunks.{
  Source, ChunkFile, missing, failed, file, check_chunk_size, get_contents, fill, find_anchor,
  fill_before, fill_rest,
}
use tavern.Caching.Respond.{lazily_respond, trim, skip_head, tail_limit}
use tavern.Caching.Assemble.Segments.{Serves, Asks}
use tavern.Caching.Assemble.Total.{NoFaults}
use tavern.Caching.Assemble.Body.{lazily_respond_sound, lazily_respond_total}

abbrev obj : Bytes
obj = 10 ∷ 11 ∷ 12 ∷ 13 ∷ 14 ∷ 15 ∷ 16 ∷ 17 ∷ 18 ∷ 19 ∷ []

-- the second of four chunks is stored
abbrev chunk_files : ℕ → ChunkFile
chunk_files zero = missing
chunk_files (suc zero) = file (13 ∷ 14 ∷ 15 ∷ []) true
chunk_files (suc (suc n)) = missing

abbrev cache : Source
cache = record {
  size = 10;
  block_size = 3;
  chunks = 1 ∷ [];
  slice_size = 1048576;
  chunk_file = chunk_files;
  range_end = 7;
  upstream = λ a b. some (slice obj a (b + 1));
}

cache_run : lazily_respond cache 2 7 ≡ some (12 ∷ 13 ∷ 14 ∷ 15 ∷ 16 ∷ 17 ∷ [])
unfolding lazily_respond get_contents fill find_anchor fill_before check_chunk_size fill_rest trim
    skip_head slice tail_limit
cache_run = refl

stored_bytes : ChunkFile → Bytes
stored_bytes missing = []
stored_bytes failed = []
stored_bytes (file b s) = b

stored_slice :
    (k : ℕ) (b : Bytes) (s : Bool) → chunk_files k ≡ file b s → b ≡ slice obj (k * 3) ((k + 1) * 3)
unfolding stored_bytes slice
stored_slice zero b s h = cc
stored_slice (suc zero) b s h = sym (ap stored_bytes h)
stored_slice (suc (suc k)) b s h = cc

stored_whole :
    (k : ℕ)
    → (chunk_files k ≡ missing)
      ⊎ ((b : Bytes) × (s : Bool) × (chunk_files k ≡ file b s)
          × (check_chunk_size cache k b s ≡ true))
unfolding check_chunk_size
stored_whole zero = inl refl
stored_whole (suc zero) = inr (13 ∷ 14 ∷ 15 ∷ [], true, refl, refl)
stored_whole (suc (suc k)) = inl refl

cache-Serves : Serves cache obj
cache-Serves = record {
  size_small = omega arith;
  block_pos = omega arith;
  block_small = omega arith;
  stored = λ k b s h good. stored_slice k b s h;
  origin = λ a b h k. refl;
}

cache-Asks : Asks cache 2 7
cache-Asks = record { ordered = omega arith; inside = omega arith; header_end = omega arith }

cache-NoFaults : NoFaults cache
cache-NoFaults = record { whole = stored_whole }

lazily_respond_total_example : lazily_respond cache 2 7 ≡ some (slice obj 2 8)
lazily_respond_total_example =
    lazily_respond_total cache obj 2 7 cache-Serves cache-Asks cache-NoFaults

lazily_respond_sound_example : slice obj 2 8 ≡ slice obj 2 8
lazily_respond_sound_example =
    lazily_respond_sound cache obj 2 7 (slice obj 2 8) cache-Serves cache-Asks
      lazily_respond_total_example
