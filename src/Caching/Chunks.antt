-- ===== src/Caching/Chunks.antt =====
-- server/middleware/caching/internal.go: `getContents` and the functions that it calls. A reader
-- is the list of the bytes that it gives. An error of the origin, which the reader of the code
-- reports when it is read, makes the whole fail; the bucket's `Discard` after a size mismatch is
-- left out.
use tavern.Prelude.{
  ℕ, ◌+◌, ◌-◌, ◌*◌, ◌/◌, ◌%◌, ◌^◌, Bool, false, ◌&&◌, Option, none, some, List, [], ◌++◌, ltb, leb,
  ◌==◌, if◌then◌else◌, length, get_or, get_elem?, min,
}
use tavern.Prelude.Text.{Bytes}
use tavern.Prelude.Search.{search}
use tavern.Iobuf.Block.{u32}

-- What the bucket has for a chunk: no file, an error that is not `ErrNotExist`, or a file with its
-- content and whether `Stat` works.
pub data ChunkFile : Type 0 where
  missing failed : ChunkFile
  file : Bytes → Bool → ChunkFile

-- The request's view of the cache: the object's metadata, the chunk files, the configured slice
-- size, the end of the range that the Range header asks for, and the origin, which answers a
-- request for the bytes from one position to another.
pub record Source : Type 0 where
  pub size : ℕ
  pub block_size : ℕ
  pub chunks : List ℕ
  pub slice_size : ℕ
  pub chunk_file : ℕ → ChunkFile
  pub range_end : ℕ
  pub upstream : ℕ → ℕ → Option Bytes

-- uint64 subtraction
abbrev pub sub64 : ℕ → ℕ → ℕ
sub64 a b = (a + 2 ^ 64 - b) % 2 ^ 64

-- `partSize` of `getContents` and `realSize` of `checkChunkSize`
abbrev pub part_size : Source → ℕ
part_size c = if ltb 0 c.block_size then c.block_size else c.slice_size

-- the size that a chunk's file must have
unfoldable pub chunk_size : Source → ℕ → ℕ
chunk_size c idx = if idx == u32 (c.size / part_size c) then c.size % part_size c else part_size c

-- `checkChunkSize`: whether it returns no error
unfoldable pub check_chunk_size : Source → ℕ → Bytes → Bool → Bool
unfolding chunk_size
check_chunk_size c idx content stat = stat && length content == chunk_size c idx

-- a stored chunk after `first`, up to `last`
abbrev pub is_anchor : ℕ → ℕ → Option ℕ → Bool
is_anchor first last none = false
is_anchor first last (some a) = ltb first a && leb a last

unfoldable pub find_anchor : Source → ℕ → ℕ → Option ℕ
unfolding search
find_anchor c first last =
    let i = search (length c.chunks) (λ i. is_anchor first last (get_elem? c.chunks i)) in
    get_elem? c.chunks i

pub data Contents : Type 0 where
  failed : Contents
  -- the bytes of a reader, and the count of chunks that it covers
  reader : Bytes → ℕ → Contents

abbrev pub from_origin : Option Bytes → Bytes → ℕ → Contents
from_origin none tail count = failed
from_origin (some bytes) tail count = reader (bytes ++ tail) count

abbrev pub last_of : List ℕ → ℕ
last_of req = get_or req (length req - 1) 0

-- no stored chunk is left: the origin gives the rest
unfoldable pub fill_rest : Source → List ℕ → ℕ → Contents
fill_rest c req from =
    let from_byte = u32 (get_or req from 0 * u32 c.block_size) in
    let tail = sub64 ((last_of req + 1) * part_size c) 1 in
    let tail_chunk = if ltb c.range_end tail then c.range_end else tail in
    let to_byte = min (sub64 c.size 1) tail_chunk in
    from_origin (c.upstream from_byte to_byte) [] (length req - from)

-- the origin gives what is missing before a stored chunk
unfoldable pub fill_before : Source → List ℕ → ℕ → ℕ → ChunkFile → Contents
fill_before c req from anchor (file content stat) =
    let from_byte = u32 (get_or req from 0 * u32 c.block_size) in
    let to_byte = min (sub64 c.size 1) (sub64 (u32 (anchor * u32 (part_size c))) 1) in
    if check_chunk_size c anchor content stat
    then from_origin (c.upstream from_byte to_byte) content (anchor - get_or req from 0 + 1)
    else failed
fill_before c req from anchor other = fill_rest c req from

abbrev pub fill_anchor : Source → List ℕ → ℕ → Option ℕ → Contents
fill_anchor c req from none = fill_rest c req from
fill_anchor c req from (some anchor) = fill_before c req from anchor (c.chunk_file anchor)

-- the part of `getContents` after the first chunk was not found
unfoldable pub fill : Source → List ℕ → ℕ → Contents
fill c req from = fill_anchor c req from (find_anchor c (get_or req from 0) (last_of req))

abbrev pub first_chunk : Source → List ℕ → ℕ → ChunkFile → Contents
first_chunk c req from failed = failed
first_chunk c req from missing = fill c req from
first_chunk c req from (file content stat) =
    if check_chunk_size c (get_or req from 0) content stat
    then reader content 1
    else fill c req from

-- `getContents`
unfoldable pub get_contents : Source → List ℕ → ℕ → Contents
get_contents c req from = first_chunk c req from (c.chunk_file (get_or req from 0))
