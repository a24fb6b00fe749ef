-- ===== src/Caching/Respond.antt =====
-- server/middleware/caching/caching.go: the body that `lazilyRespond` puts together. A reader is
-- the list of the bytes that it gives: `SkipReadCloser` drops, `LimitReadCloser` takes, and
-- `PartsReadCloser` joins. `getContents` never gives the count -1 for which the code has a branch.
use tavern.Prelude.{
  ℕ, zero, suc, ◌+◌, ◌-◌, ◌*◌, ◌%◌, Option, none, some, List, [], ◌++◌, ltb, ◌==◌, if◌then◌else◌,
  length, take, drop,
}
use tavern.Prelude.Text.{Bytes}
use tavern.Iobuf.Block.{build}
use tavern.Caching.Chunks.{Source, failed, reader, get_contents, sub64}

-- the head skip, which only the first reader has
unfoldable pub skip_head : Source → ℕ → ℕ → Bytes → Bytes
skip_head c start i bytes = if i == 0 then drop (start % c.block_size) bytes else bytes

-- `endLimit`, the bytes that the last reader may give
unfoldable pub tail_limit : Source → ℕ → ℕ → ℕ → ℕ → ℕ
tail_limit c start end i count =
    let limit = (count - 1) * c.block_size + end % c.block_size + 1 in
    if i == 0 then sub64 limit (start % c.block_size) else limit

-- one reader with its head skip and its tail limit
unfoldable pub trim : Source → ℕ → ℕ → ℕ → ℕ → ℕ → Bytes → Bytes
trim c start end len i count bytes =
    let skipped = skip_head c start i bytes in
    if i + count == len then take (tail_limit c start end i count) skipped else skipped

-- the readers that are joined: this one, and those of the rounds to come
abbrev pub prepend : Bytes → Option Bytes → Option Bytes
prepend bytes none = none
prepend bytes (some rest) = some (bytes ++ rest)

-- the loop over the chunks from `i` on; the rounds left
unfoldable pub respond_from : Source → List ℕ → ℕ → ℕ → ℕ → ℕ → Option Bytes
respond_from c req start end i zero = some []
respond_from c req start end i (suc fuel) =
    if ltb i (length req)
    then elim (get_contents c req i) [
      | failed ↦ none
      | reader bytes count ↦
          prepend (trim c start end (length req) i count bytes)
            (respond_from c req start end (i + count) fuel)
    ]
    else some []

-- `lazilyRespond` for a GET request: `none` is an error
unfoldable pub lazily_respond : Source → ℕ → ℕ → Option Bytes
unfolding respond_from build
lazily_respond c start end =
    let req = build start end c.block_size in respond_from c req start end 0 (length req + 1)
