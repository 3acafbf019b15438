-- ===== src/Http/Range/Tests.antt =====
-- Headers of the unit tests.
use rustorr.Base.{◌≡◌, ◌<◌, ◌≤◌, refl, List, [], ◌∷◌, some, ok, err, All, length}
use rustorr.Text.{Text, split, strip_prefix, parse_u64, split_once, trim}
use rustorr.Http.Range.{HttpRange, parse, invalid, unsatisfiable, bytes_prefix}
use rustorr.Http.Range.Laws.{IsInside, parse-IsInside}

-- `0-1,8-99`
abbrev two_values : Text
two_values = b'0' ∷ b'-' ∷ b'1' ∷ b',' ∷ b'8' ∷ b'-' ∷ b'9' ∷ b'9' ∷ []

abbrev two : Text
two = b'b' ∷ b'y' ∷ b't' ∷ b'e' ∷ b's' ∷ b'=' ∷ two_values

abbrev two_ranges : List HttpRange
two_ranges = record { start = 0; end = 1 } ∷ record { start = 8; end = 9 } ∷ []

two_parses : parse two 10 ≡ ok two_ranges
unfolding parse strip_prefix split split_once trim parse_u64
two_parses = refl

last_three :
    parse (b'b' ∷ b'y' ∷ b't' ∷ b'e' ∷ b's' ∷ b'=' ∷ b'-' ∷ b'3' ∷ []) 10
    ≡ ok (record { start = 7; end = 9 } ∷ [])
unfolding parse strip_prefix split split_once trim parse_u64
last_three = refl

past_the_end :
    parse (b'b' ∷ b'y' ∷ b't' ∷ b'e' ∷ b's' ∷ b'=' ∷ b'1' ∷ b'0' ∷ b'-' ∷ []) 10 ≡ err unsatisfiable
unfolding parse strip_prefix split split_once trim parse_u64
past_the_end = refl

other_unit : parse (b'i' ∷ b't' ∷ b'e' ∷ b'm' ∷ b's' ∷ b'=' ∷ b'0' ∷ b'-' ∷ []) 10 ≡ err invalid
unfolding parse strip_prefix
other_unit = refl

parse-IsInside_example :
    (values : Text) × (strip_prefix bytes_prefix two ≡ some values)
    × (length two_ranges ≡ length (split b',' values))
    × (0 < length two_ranges)
    × (length two_ranges ≤ 64)
    × All (IsInside 10) two_ranges
parse-IsInside_example = parse-IsInside two 10 two_ranges two_parses
