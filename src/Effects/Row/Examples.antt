-- ===== src/Effects/Row/Examples.antt =====
-- Granting at concrete entries and rows.
use deed.Prelude.{◌≡◌, refl, ◌||◌, true, [], ◌∷◌}
use deed.Effects.Row.{Row, whole, operation_of, covers, extend, row_covers}
use deed.Effects.Row.Granting.{covers_trans, extend-covers}

covers_trans_example : covers (whole 4) (operation_of 4 "read") ≡ true
unfolding covers
covers_trans_example =
    covers_trans (whole 4) (operation_of 4 "read") (operation_of 4 "read") refl refl

abbrev reads : Row
reads = record { items = operation_of 4 "read" ∷ [] }

abbrev all_of_four : Row
all_of_four = record { items = whole 4 ∷ operation_of 4 "read" ∷ [] }

extend-covers_example :
    row_covers (extend reads all_of_four) (operation_of 4 "write")
    ≡ (row_covers reads (operation_of 4 "write") || row_covers all_of_four (operation_of 4 "write"))
extend-covers_example = extend-covers reads all_of_four (operation_of 4 "write")
