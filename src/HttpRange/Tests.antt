-- ===== src/HttpRange/Tests.antt =====
-- Concrete runs of the Range header's parser.
use teldrive_fork.Base.{◌≡◌, refl, [], ◌∷◌, Text}
use teldrive_fork.Base.Int.{pos}
use teldrive_fork.Tgc.AuthRecovery.{split}
use teldrive_fork.HttpRange.{ok, panicked, parse, after_equals, parse_int, clamp, parse_values}
use teldrive_fork.HttpRange.Bounds.{Good, parse-Good}

-- "b=2-5,-3"
abbrev two_values : Text
two_values = b'b' ∷ b'=' ∷ b'2' ∷ b'-' ∷ b'5' ∷ b',' ∷ b'-' ∷ b'3' ∷ []

two_values_run :
    parse two_values 10
    ≡ ok (record { start = pos 2; end = pos 5 } ∷ record { start = pos 7; end = pos 9 } ∷ [])
unfolding parse after_equals parse_values split parse_int clamp
two_values_run = refl

-- "b=5"
dash_missing_run : parse (b'b' ∷ b'=' ∷ b'5' ∷ []) 10 ≡ panicked
unfolding parse after_equals parse_values split parse_int clamp
dash_missing_run = refl

parse-Good_example : Good 10 (parse two_values 10)
parse-Good_example = parse-Good two_values 10
