-- ===== src/FillRange.antt =====
-- server/middleware/caching/caching_fillrange.go: a request for a range is widened to whole chunks, and
-- the response is cut back. An int is its 64-bit word here: a number below 2^64, which stands for an int below
-- 0 from 2^63 on. The end of a window may be one, where the size of the object is unknown. (`RangeReader` is
-- modelled for positions from 0 on alone.)
use tavern.Prelude.{
  ℕ, ◌+◌, ◌-◌, ◌*◌, ◌/◌, ◌%◌, ◌^◌, Bool, true, false, not, ◌&&◌, ◌||◌, Option, none, some, List, [],
  ◌∷◌, ◌++◌, ltb, leb, ◌==◌, if◌then◌else◌,
}
use tavern.Prelude.Int.{pos_part}
use tavern.Prelude.Text.{Bytes, codes, NumError, parse_uint, show_ℕ}
use tavern.HttpRange as Http
use tavern.HttpRange.{single_parse, build_header_range}
use tavern.Readers.Window.{RangeReader, range_reader}
pub mod Widen
pub mod Served
mod Tests

pub record FillRangeContext : Type 0 where
  pub new_start : ℕ
  pub new_end : ℕ
  pub raw_start : ℕ
  pub raw_end : ℕ
  pub flag : Bool

pub record FillRange : Type 0 where
  pub fill_range_percent : ℕ
  pub chunk_size : ℕ

abbrev percent_of : ℕ × NumError → ℕ
percent_of (p, NumError.nil) = if p == 0 || ltb 100 p then 0 else p
percent_of (p, _) = 0

-- `parseFillPercent`, with the value of the header
unfoldable pub parse_fill_percent : Bytes → ℕ → ℕ
parse_fill_percent [] def = def
parse_fill_percent (c ∷ cs) def = percent_of (parse_uint (c ∷ cs))

-- int arithmetic and comparison
unfoldable pub is_negative : ℕ → Bool
is_negative a = leb (2 ^ 63) a

unfoldable pub lt_int : ℕ → ℕ → Bool
lt_int a b = ltb ((a + 2 ^ 63) % 2 ^ 64) ((b + 2 ^ 63) % 2 ^ 64)

unfoldable pub sub_int : ℕ → ℕ → ℕ
sub_int a b = (a + 2 ^ 64 - b) % 2 ^ 64

unfoldable pub add_int : ℕ → ℕ → ℕ
add_int a b = (a + b) % 2 ^ 64

-- the first byte of the chunk, unless that is too far away
abbrev pub chunk_start : ℕ → ℕ → ℕ → ℕ
chunk_start chunk most raw =
    let start = raw / chunk * chunk in if lt_int most (sub_int raw start) then raw else start

-- the last byte of the chunk, in uint64, unless that is too far away
abbrev pub chunk_end : ℕ → ℕ → ℕ → ℕ
chunk_end chunk most raw =
    let end = ((raw / chunk + 1) * chunk + 2 ^ 64 - 1) % 2 ^ 64 in
    if lt_int most (sub_int end raw) then raw else end

-- the window that is asked for, with the test on what is filled in all and on short ranges
abbrev pub narrow : ℕ → ℕ → ℕ → ℕ → ℕ → ℕ → ℕ → FillRangeContext
narrow chunk most least new_start new_end raw_start raw_end =
    let filled = sub_int (add_int (sub_int raw_start new_start) new_end) raw_end in
    if not (lt_int chunk (sub_int new_end new_start)) && lt_int most filled
      || lt_int (add_int (sub_int raw_end raw_start) 1) least
    then record {
      new_start = raw_start;
      new_end = raw_end;
      raw_start = raw_start;
      raw_end = raw_end;
      flag = false;
    }
    else record {
      new_start = new_start;
      new_end = new_end;
      raw_start = raw_start;
      raw_end = raw_end;
      flag = not (new_start == raw_start && new_end == raw_end);
    }

-- the check of validity in `fill`: whether the request goes on as it is
abbrev pub is_invalid : ℕ → ℕ → ℕ → ℕ → Bool
is_invalid new_start new_end raw_start raw_end =
    (is_negative raw_start || is_negative raw_end)
    || (not (is_negative raw_end) && lt_int raw_end raw_start
        || not (is_negative new_end) && lt_int new_end new_start)

-- `fill` of a range that is parsed, with the percentage
unfoldable pub fill_window : FillRange → ℕ → ℕ → ℕ → Option FillRangeContext
fill_window f fp raw_start raw_end =
    let most = f.chunk_size * fp % 2 ^ 64 / 100 in
    let least = f.chunk_size * ((100 + 2 ^ 64 - fp) % 2 ^ 64) % 2 ^ 64 / 100 in
    let start = chunk_start f.chunk_size most raw_start in
    let end = chunk_end f.chunk_size most raw_end in
    if is_invalid start end raw_start raw_end
    then none
    else some (narrow f.chunk_size most least start end raw_start raw_end)

-- the digits of a position in the Range header: none for one below 0
abbrev pub print_position : ℕ → Bytes
print_position n = if is_negative n then [] else show_ℕ n

-- the Range header of the request to the origin
abbrev pub new_range : FillRangeContext → Bytes
new_range fill =
    codes "bytes=" ++ print_position fill.new_start ++ b'-' ∷ print_position fill.new_end

abbrev with_window : Bytes → Option FillRangeContext → Bytes × Option FillRangeContext
with_window raw none = (raw, none)
with_window raw (some w) = (new_range w, some w)

-- the request that goes on: its Range header, and the window, if there is one
abbrev filled : FillRange → ℕ → Bytes → Http.Result Http.Range → Bytes × Option FillRangeContext
filled f fp raw (Http.Result.err e) = (raw, none)
filled f fp raw (Http.Result.ok r) =
    with_window raw (fill_window f fp (pos_part r.start) (pos_part r.end))

-- `fill`, with the size of the object if its metadata are there, and the header of the percentage
unfoldable pub fill : FillRange → Option ℕ → Bytes → Bytes → Bytes × Option FillRangeContext
fill f none raw percent =
    filled f (parse_fill_percent percent f.fill_range_percent) raw (single_parse raw (2 ^ 63 - 1))
fill f (some size) raw percent =
    filled f (parse_fill_percent percent f.fill_range_percent) raw (single_parse raw size)

-- `PreRequest`, with the Range header and whether the method is HEAD
unfoldable pub pre_request :
    FillRange → Option ℕ → Bool → Bytes → Bytes → Bytes × Option FillRangeContext
pre_request f md head [] percent = ([], none)
pre_request f md head (c ∷ cs) percent =
    if f.fill_range_percent == 0 || head then (c ∷ cs, none) else fill f md (c ∷ cs) percent

-- the end of the window and of the range, where the object is shorter than what was asked for
abbrev pub clip : ℕ → FillRangeContext → FillRangeContext
clip size w =
    let end =
      if lt_int size (sub_int w.new_end w.new_start)
      then sub_int (add_int w.new_start size) 1
      else w.new_end in
    record w { new_end = end; raw_end = if lt_int end w.raw_end then end else w.raw_end }

-- What `PostRequest` gives: the body and the headers as they are, or an error (status 416, or the error of
-- the Content-Range header), or a window of the body with its Content-Range header.
pub data Reply (S : Type 0) : Type 0 where
  unchanged : Reply S
  bad_content_range : Reply S
  not_satisfiable : Bytes → Reply S
  cut : RangeReader S → Bytes → Reply S

abbrev pub cut_back : {S : Type 0} → S → FillRangeContext → Option ℕ → Reply S
cut_back s w none = bad_content_range
cut_back s w (some size) =
    if ltb size w.raw_start
    then not_satisfiable (codes "bytes */" ++ show_ℕ size)
    else let v = clip size w in
      cut (range_reader s v.new_start v.new_end v.raw_start v.raw_end)
        (build_header_range v.raw_start v.raw_end size)

-- `PostRequest`, with the window of the request, the status, and the size of the object in the
-- Content-Range header, if it can be parsed
unfoldable pub post_request : {S : Type 0} → Option FillRangeContext → ℕ → Option ℕ → S → Reply S
post_request none status size s = unchanged
post_request (some w) status size s =
    if status == 206 && w.flag then cut_back s w size else unchanged
