-- ===== src/Lib.antt =====
-- A verification library of tavern, an HTTP cache server. A request's Range header is parsed and cut
-- to the object; the status of the hit is read off the bitmap of stored chunks; the body is joined
-- from chunk files and from what the origin gives; buckets for objects are chosen on a hash ring; and
-- the memory tier and the reports rest on a frequency cache and a sketch of hot keys.
--
-- The files, and the code that each one models:
--   RangeControl: pkg/x/http/rangecontrol. `Parse`, `SortRanges`, `MergeRanges`, `ParseContentRange`
--     and the printers.
--   HttpRange: pkg/x/http/range.go. The lenient parser that the cache uses (`Parse`, `SingleParse`),
--     `UnsatisfiableMultiRange` and the printers.
--   Iobuf: pkg/iobuf/blockfile.go and pkg/iobuf/ioindexes. Chunk indices, bitmaps and blocks. The
--     bitmap package is the interface `BitmapLib` of Iobuf/Bitmap; sorted lists fill it.
--   Readers: pkg/iobuf. `LimitReadCloser`, `SkipReadCloser`, `PartsReadCloser` and `RangeReader` as
--     machines that answer one read at a time, over any underlying reader.
--   Caching: server/middleware/caching. `lazilyRespond` (caching.go), `getContents`,
--     `getSliceChunkFile` and `checkChunkSize` (internal.go).
--   Savepart: pkg/iobuf/savepart_reader.go and savepart_async_reader.go, the storing of a body in blocks, at
--     once or by a goroutine that takes them from a queue, with its receiver, `flushbufferSlice` of
--     server/middleware/caching/caching.go, over the files of the disk bucket.
--   Processors: server/middleware/caching/processor.go. The chain of processors around the cache.
--   FillRange: server/middleware/caching/caching_fillrange.go. The widening of a range to chunks and
--     the cut of the response, through the parser of HttpRange and the windows of Readers.
--   ChunkFlight: server/middleware/caching/chunk_flight.go. One flight of `ChunkFlightGroup.Do`: the
--     callers, the leader and the fetch as a step relation, over the windows of Readers.
--   ObjectFlight: server/middleware/caching/object_flight.go. The callers of `ObjectFlightGroup.Do` for one
--     key, as a sequence of what happens, and the copy of the body to them.
--   Metadata: api/defined/v1/storage/object/object.go, and `markCacheStatus` of
--     server/middleware/caching/internal.go.
--   HashRing: storage/selector/hashring. The ring (consistent.go) and the selector (hashring.go).
--   Lru: pkg/algorithm/lru/lru.go. HeavyKeeper: pkg/algorithm/heavykeeper.
--   Storage: the buckets on disk (storage/bucket/disk/disk.go) with their ids and marks
--     (api/defined/v1/storage), and their tiers (storage/migrator.go): `Store`, `Discard`, `Migrate`,
--     `evict`, `touch`, `Select`, `Demote`, `Promote` and `PURGE` of one object.
--   Revalidation: server/middleware/caching/caching_revalidate.go. When an object is fresh, and what the
--     answer of the origin does to one that is not, over any bucket.
--   SharedKv: storage/sharedkv/nonekv.go. Counters and prefix ranges.
--   Variants: server/middleware/caching/caching_vary.go. The processor of variants, through the keys of
--     VaryControl and the ids of Storage, over any bucket.
--   PathTrie: pkg/pathtrie/pathtrie.go. Insertion and search of paths, over any regular expressions.
--   VaryControl: pkg/x/http/varycontrol. The keys of the variants of an object.
--   CacheControl: pkg/x/http/cachecontrol. The tests of the directives.
--   Prelude: tests on native numbers, int64 with its wrap-around, text as ASCII codes with the
--     functions of strings and strconv that the code calls, decimal numbers, slices, sort.Search.
--
-- How state and operations correspond. A struct is a record, a Go map an association list or a
-- function, a linked list a list, and an operation on
-- an object a function from the state to the new state. In Caching a reader is the list of the bytes
-- that it gives; Readers shows for the readers of pkg/iobuf that they give the bytes that Caching
-- cuts and joins. A function that may fail returns an option or
-- a result type of its own, where a panic of the code is a case too. Machine integers: int64 is ℤ
-- with `wrap64`; uint32 and uint64 are natural numbers with `% 2 ^ 32` and `% 2 ^ 64`.
--
-- Bounds and fuel. `sort.Search` has n + 1 rounds, and each one cuts the bounds at least by one. The
-- loop of `lazilyRespond` has one round per chunk and one more; each round covers at least one chunk.
-- The walk of `GetN` on a ring of len hashes has 2 * len + 1 rounds, of which len + 1 are used when
-- enough distinct nodes stand on the ring; otherwise the code may not end, and the model then says
-- that there is no result. The loops of `FullHit` and `PartHit` have 2^32 + 1 rounds; where the last index
-- is below 2^32 - 1 they end, and otherwise there may be no result, where they do not.
-- `io.CopyN` to `io.Discard` has so many rounds as the caller gives it; the theorems on readers ask for
-- more rounds than the reader needs reads. The loop of `flush` of a saving reader has one round per byte
-- and one more, for the end of the skipping, which is shown to be enough. The calls of `discard` of itself
-- are as deep as the index is long, at most, while the index takes writes.
--
-- Not under the repository's files, and therefore parameters: the bitmap package, pebble (what a
-- read gives, and whether a write succeeds), the hashes of the library, the random numbers of the
-- sketch, and the origin (a function from byte ranges to bytes). A reader below those of Readers is any
-- state that answers reads, with the law that it delivers given bytes; the disk is what it opens, how many
-- bytes of a file it takes, and which files it can rename and remove.
--
-- Not modelled: the HTTP and storage drivers around these parts (server, proxy,
-- buckets in memory, purges of directories, index databases, plugins, configuration, logs, metrics); concurrency, except in ChunkFlight and ObjectFlight and
-- for the goroutine of Savepart, which runs between the reads,
-- since the other operations hold their lock from start to end or work on a request's own data; the
-- regular expression of `cachecontrol.Parse`; and the order in which Go ranges over a map, which is
-- that of the association list.
pub mod Prelude
pub mod RangeControl
pub mod Iobuf
pub mod Caching
pub mod ChunkFlight
pub mod FillRange
pub mod ObjectFlight
pub mod PathTrie
pub mod Processors
pub mod Savepart
pub mod Variants
pub mod VaryControl
pub mod HttpRange
pub mod Revalidation
pub mod SharedKv
pub mod Storage
pub mod HeavyKeeper
pub mod HashRing
pub mod Lru
pub mod CacheControl
pub mod Metadata
pub mod Readers
