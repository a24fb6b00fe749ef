-- ===== src/FillRange/Tests.antt =====
-- Requests with chunks of four bytes, and the theorems applied.
use tavern.Prelude.{◌≡◌, ◌+◌, ◌-◌, ◌*◌, ◌^◌, refl, true, false, none, some, [], ◌∷◌, arith}
use tavern.Prelude.Text.{Bytes, codes, parse_int, show_ℕ}
use tavern.Prelude.Slices.{slice}
use tavern.HttpRange.{build_header_range, single_parse, resolve, accept}
use tavern.Readers.Stream.{read_all}
use tavern.Readers.Window.{RangeReader, range_reader, window_reader}
use tavern.Readers.Sample.{slow, sure, Left, slow-Delivers, sizes, sizes-All}
use tavern.FillRange.{
  FillRange, FillRangeContext, is_negative, lt_int, sub_int, add_int, fill_window, cut,
  post_request, pre_request, fill, parse_fill_percent,
}
use tavern.FillRange.Widen.{Widens, fill_window-Widens}
use tavern.FillRange.Served.{post_request-fill_window}

abbrev by_four : FillRange
by_four = record { fill_range_percent = 100; chunk_size = 4 }

fill_window-Widens_example :
    (w : FillRangeContext) × (fill_window by_four 100 5 6 ≡ some w) × Widens 4 4 5 6 w
fill_window-Widens_example =
    fill_window-Widens by_four 100 5 6 (omega arith) (omega arith) (omega arith)

abbrev letters : Bytes
letters = 97 ∷ 98 ∷ 99 ∷ 100 ∷ 101 ∷ 102 ∷ 103 ∷ []

-- what the origin gives for the last chunk
abbrev fetched : Bytes
fetched = 101 ∷ 102 ∷ 103 ∷ []

abbrev window : FillRangeContext
window = record { new_start = 4; new_end = 7; raw_start = 5; raw_end = 6; flag = true }

windowed : fill_window by_four 100 5 6 ≡ some window
unfolding fill_window is_negative lt_int sub_int add_int
windowed = refl

post_request-fill_window_example :
    (w : RangeReader Bytes) × (post_request (some window) 206 (some 7) (101 ∷ 102 ∷ 103 ∷ [])
      ≡ cut w (build_header_range 5 6 7))
    × (read_all (window_reader slow 9) sizes w ≡ some (slice letters 5 7))
unfolding slice
post_request-fill_window_example =
    post_request-fill_window slow 9 sure Left slow-Delivers by_four 100 5 6 window letters
      (101 ∷ 102 ∷ 103 ∷ []) 3 sizes (omega arith) (omega arith) (omega arith) (omega arith)
      (omega arith) windowed refl (refl, omega arith) refl (omega arith) sizes-All (omega arith)

-- the whole chunk is asked for
whole_chunk : (pre_request by_four (some 7) false (codes "bytes=5-6") []).0 ≡ codes "bytes=4-7"
unfolding pre_request fill single_parse resolve parse_int accept show_ℕ fill_window
    parse_fill_percent is_negative lt_int sub_int add_int
whole_chunk = refl

-- For an object of unknown size, the end of the range is compared with the size only by the length of the
-- window: a range from 4 to 9 of an object of seven bytes is answered by a Content-Range up to 9.
past_the_object :
    post_request
      (some (record { new_start = 4; new_end = 11; raw_start = 4; raw_end = 9; flag = true }))
      206
      (some 7)
      fetched
    ≡ cut (range_reader fetched 4 11 4 9) (codes "bytes 4-9/7")
unfolding post_request build_header_range show_ℕ lt_int sub_int add_int
past_the_object = refl

-- Where the size is unknown and the chunk size is no power of 2, the end of the last chunk is an int below 0:
-- the origin is asked for an open range.
abbrev by_three : FillRange
by_three = record { fill_range_percent = 100; chunk_size = 3 * 2 ^ 20 }

open_range : (pre_request by_three none false (codes "bytes=0-") []).0 ≡ codes "bytes=0-"
unfolding pre_request fill single_parse resolve parse_int accept show_ℕ fill_window
    parse_fill_percent is_negative lt_int sub_int add_int
open_range = refl

-- the window of that request
abbrev past_ints : FillRangeContext
past_ints = record {
  new_start = 0;
  new_end = 2 ^ 63 + 1048575;
  raw_start = 0;
  raw_end = 2 ^ 63 - 2;
  flag = true;
}

open_window : fill_window by_three 100 0 (2 ^ 63 - 2) ≡ some past_ints
unfolding fill_window is_negative lt_int sub_int add_int
open_window = refl

-- Its end of the range is then an int below 0, which the Content-Range header shows as a uint64.
negative_end :
    post_request (some past_ints) 206 (some 7) letters
    ≡ cut
        (range_reader letters 0 (2 ^ 63 + 1048575) 0 (2 ^ 63 + 1048575))
        (codes "bytes 0-9223372036855824383/7")
unfolding post_request build_header_range show_ℕ lt_int sub_int add_int
negative_end = refl
