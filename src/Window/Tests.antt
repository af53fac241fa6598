-- ===== src/Window/Tests.antt =====
-- Three days of one week, and the last two days of the calendar.
use datasource_kit.Prelude.{◌+◌, ◌-◌, ◌≡◌, refl, some, List, [], ◌∷◌, arith}
use datasource_kit.Effect.{overflow_error, ok, raised}
use datasource_kit.Window.{DayWindow, day, date_max, upwards, downwards, split_range_into_days}
use datasource_kit.Window.Cover.{Cover, split_range-Cover, split_range_overflows}

newest :
    split_range_into_days 4 739000 739002 "newest_first"
    ≡ some (day 739002 ∷ day 739001 ∷ day 739000 ∷ [], ok tt)
unfolding split_range_into_days downwards
newest = refl

inverted : split_range_into_days 1 739002 739000 "oldest_first" ≡ some ([], ok tt)
unfolding split_range_into_days upwards
inverted = refl

split_range-Cover_example :
    ((up : List DayWindow) × (split_range_into_days 4 739000 739002 "oldest_first"
        ≡ some (up, ok tt))
      × Cover (λ i. 739000 + i) 3 up)
    × ((down : List DayWindow) × (split_range_into_days 4 739000 739002 "newest_first"
          ≡ some (down, ok tt))
        × Cover (λ i. 739002 - i) 3 down)
split_range-Cover_example = split_range-Cover 2 739000 (omega arith) (omega arith)

split_range_overflows_example :
    ((up : List DayWindow) × (split_range_into_days 2 3652058 date_max "oldest_first"
        ≡ some (up, raised overflow_error))
      × Cover (λ i. 3652058 + i) 2 up)
    × ((down : List DayWindow) × (split_range_into_days 2 1 2 "newest_first"
          ≡ some (down, raised overflow_error))
        × Cover (λ i. 2 - i) 2 down)
split_range_overflows_example = split_range_overflows 1 3652058 refl
