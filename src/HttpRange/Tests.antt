-- ===== src/HttpRange/Tests.antt =====
-- Examples of the lenient parser, and of the theorems about it.
use tavern.Prelude.{◌≡◌, refl, [], ◌∷◌, arith, All}
use tavern.Prelude.Int.{pos, ◌-64◌}
use tavern.Prelude.Text.{codes, parse_int}
use tavern.HttpRange.{ok, err, invalid_format, parse, single_parse, multi_range, resolve, accept}
use tavern.HttpRange.Bounds.{IsInside, parse-IsInside}

list_parsed :
    parse (codes "bytes=0-9, x, 90-, -5, 50-500") 100
    ≡ ok (
        record { start = pos 0; end = pos 9 }
        ∷ record { start = pos 90; end = pos 99 }
        ∷ record { start = pos 95; end = pos 99 }
        ∷ record { start = pos 50; end = pos 99 }
        ∷ [])
unfolding parse resolve accept parse_int ◌-64◌
list_parsed = refl

-- A suffix that is longer than the object is refused.
long_suffix : parse (codes "bytes=-500") 100 ≡ err invalid_format
unfolding parse resolve accept parse_int ◌-64◌
long_suffix = refl

-- `UnsatisfiableMultiRange` reads the suffix of 5 bytes as the bytes from 0 to 5.
multi_suffix : multi_range (codes "bytes=-5") ≡ ok (record { start = pos 0; end = pos 5 } ∷ [])
unfolding multi_range
multi_suffix = refl

single_open : single_parse (codes "bytes=90-") 100 ≡ ok (record { start = pos 90; end = pos 99 })
unfolding single_parse resolve accept parse_int ◌-64◌
single_open = refl

parse-IsInside_example : All (IsInside 100) (
    record { start = pos 0; end = pos 9 }
    ∷ record { start = pos 90; end = pos 99 }
    ∷ record { start = pos 95; end = pos 99 }
    ∷ record { start = pos 50; end = pos 99 }
    ∷ [])
parse-IsInside_example =
    parse-IsInside (codes "bytes=0-9, x, 90-, -5, 50-500") 100 _ (omega arith) list_parsed
