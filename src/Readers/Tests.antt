-- ===== src/Readers/Tests.antt =====
-- The theorems on readers at a reader that gives one byte at a time, and tests.
use tavern.Prelude.{◌≡◌, refl, true, some, [], ◌∷◌, arith}
use tavern.Prelude.Text.{Bytes}
use tavern.Readers.Stream.{eof, discard, read_all}
use tavern.Readers.Sample.{slow, sure, Left, slow-Delivers, sizes, sizes-All}
use tavern.Readers.Parts.{
  parts_read_closer, parts_reader, read_all-parts_read_closer, close_parts, PartsReader,
}
use tavern.Readers.Windowed.{read_all-range_reader}
use tavern.Readers.Window.{range_reader, window_reader, read_range}

abbrev letters : Bytes
letters = 97 ∷ 98 ∷ 99 ∷ 100 ∷ 101 ∷ []

read_all-range_reader_example :
    read_all (window_reader slow 9) sizes (range_reader letters 10 14 11 12) ≡ some (98 ∷ 99 ∷ [])
read_all-range_reader_example =
    read_all-range_reader slow 9 sure Left slow-Delivers letters 5 letters 10 14 11 12 sizes refl
      (refl, omega arith) (omega arith) (omega arith) (omega arith) (omega arith) sizes-All
      (omega arith)

abbrev two_parts : PartsReader Bytes
two_parts = record { parts = (97 ∷ 98 ∷ []) ∷ (99 ∷ []) ∷ []; closer = true }

read_all-parts_read_closer_example :
    (p : PartsReader Bytes) × (parts_read_closer true ((97 ∷ 98 ∷ []) ∷ (99 ∷ []) ∷ []) ≡ some p)
    × (read_all (parts_reader slow) sizes p ≡ some (97 ∷ 98 ∷ 99 ∷ []))
read_all-parts_read_closer_example =
    read_all-parts_read_closer slow sure Left slow-Delivers (λ h s. refl) (97 ∷ 98 ∷ [])
      ((99 ∷ []) ∷ []) true ((97 ∷ 98 ∷ []) ∷ (99 ∷ []) ∷ []) (2 ∷ 1 ∷ []) sizes refl
      ((refl, omega arith), ((refl, omega arith), refl)) sizes-All (omega arith)

-- all parts and the closer close
close_parts_two : close_parts slow ((97 ∷ []) ∷ (98 ∷ []) ∷ []) true ≡ true
unfolding close_parts
close_parts_two = refl

-- The read that passes the end of the window discards the rest of the body and gives the end at once.
read_range_tail : read_range slow 9 (range_reader letters 0 4 0 0) 1 ≡ (
  97 ∷ [],
  eof,
  record { reader = []; new_start = 0; new_end = 4; raw_start = 0; raw_end = 0; offset = 5 },
)
unfolding read_range range_reader discard
read_range_tail = refl
