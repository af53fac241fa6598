-- ===== src/Window/Cover.antt =====
-- The windows of `split_range_into_days` are the days of the range, each once, in the chosen order.
use datasource_kit.Prelude.{
  ℕ, zero, suc, ◌+◌, ◌-◌, ◌<◌, ◌≡◌, refl, ap, ◌∙◌, true, false, some, List, [], ◌∷◌, arith, length,
  get_elem?, leb, ltb,
}
use datasource_kit.Effect.{overflow_error, ok, raised}
use datasource_kit.Window.{DayWindow, date_max, day, upwards, downwards, split_range_into_days}

-- n days upwards from d, and n days downwards from d
pub days_up : ℕ → ℕ → List DayWindow
days_up zero d = []
days_up (suc n) d = day d ∷ days_up n (d + 1)

pub days_down : ℕ → ℕ → List DayWindow
days_down zero d = []
days_down (suc n) d = day d ∷ days_down n (d - 1)

upwards_lem :
    (n d last : ℕ)
    → d + n ≡ last + 1
    → last < date_max
    → upwards (suc n) d last ≡ some (days_up n d, ok tt)
unfolding upwards days_up
upwards_lem zero d last e room =
    let stop : leb d last ≡ false = ground arith in rw (stop, upwards) refl
upwards_lem (suc n) d last e room =
    let go : leb d last ≡ true = ground arith in
    let step : ltb d date_max ≡ true = ground arith in
    let rest = upwards_lem n (d + 1) last (omega arith) room in rw (go, step, rest, upwards) refl

-- at the end of the calendar the last step raises, after every day is yielded
upwards_overflow :
    (n d : ℕ)
    → d + n ≡ date_max
    → upwards (suc n) d date_max ≡ some (days_up (suc n) d, raised overflow_error)
unfolding upwards days_up
upwards_overflow zero d e =
    let go : leb d date_max ≡ true = ground arith in
    let stuck : ltb d date_max ≡ false = ground arith in rw (go, stuck, upwards) refl
upwards_overflow (suc n) d e =
    let go : leb d date_max ≡ true = ground arith in
    let step : ltb d date_max ≡ true = ground arith in
    let rest = upwards_overflow n (d + 1) (omega arith) in rw (go, step, rest, upwards) refl

downwards_lem :
    (n d first : ℕ)
    → first + n ≡ d + 1
    → 1 < first
    → downwards (suc n) d first ≡ some (days_down n d, ok tt)
unfolding downwards days_down
downwards_lem zero d first e room =
    let stop : leb first d ≡ false = ground arith in rw (stop, downwards) refl
downwards_lem (suc n) d first e room =
    let go : leb first d ≡ true = ground arith in
    let step : ltb 1 d ≡ true = ground arith in
    let rest = downwards_lem n (d - 1) first (omega arith) room in
    rw (go, step, rest, downwards) refl

downwards_overflow :
    (n d : ℕ)
    → d ≡ n + 1
    → downwards (suc n) d 1 ≡ some (days_down (suc n) d, raised overflow_error)
unfolding downwards days_down
downwards_overflow zero d e =
    let go : leb 1 d ≡ true = ground arith in
    let stuck : ltb 1 d ≡ false = ground arith in rw (go, stuck, downwards) refl
downwards_overflow (suc n) d e =
    let go : leb 1 d ≡ true = ground arith in
    let step : ltb 1 d ≡ true = ground arith in
    let rest = downwards_overflow n (d - 1) (omega arith) in rw (go, step, rest, downwards) refl

-- What the list of windows is: n windows, the i-th being one day, i days from the first or the last.
pub record Cover (at : ℕ → ℕ) (n : ℕ) (ws : List DayWindow) : Type 0 where
  pub count : length ws ≡ n
  pub each : (i : ℕ) → i < n → get_elem? ws i ≡ some (day (at i))

each_up :
    (n d : ℕ)
    → Cover (λ i. (d + 1) + i) n (days_up n (d + 1))
    → (i : ℕ) → i < suc n
    → get_elem? (days_up (suc n) d) i ≡ some (day (d + i))
unfolding days_up
each_up n d c zero lt = ground arith
each_up n d c (suc i) lt = c.each i (omega arith) ∙ ap (λ x. some (day x)) (omega arith)

days_up-Cover : (n d : ℕ) → Cover (λ i. d + i) n (days_up n d)
unfolding days_up
days_up-Cover zero d = record { count = refl; each = λ i lt. absurd (omega arith) }
days_up-Cover (suc n) d =
    let c = days_up-Cover n (d + 1) in
    record { count = omega (arith, c.count); each = each_up n d c }

each_down :
    (n d : ℕ)
    → Cover (λ i. (d - 1) - i) n (days_down n (d - 1))
    → (i : ℕ) → i < suc n
    → get_elem? (days_down (suc n) d) i ≡ some (day (d - i))
unfolding days_down
each_down n d c zero lt = ground arith
each_down n d c (suc i) lt = c.each i (omega arith) ∙ ap (λ x. some (day x)) (omega arith)

days_down-Cover : (n d : ℕ) → Cover (λ i. d - i) n (days_down n d)
unfolding days_down
days_down-Cover zero d = record { count = refl; each = λ i lt. absurd (omega arith) }
days_down-Cover (suc n) d =
    let c = days_down-Cover n (d - 1) in
    record { count = omega (arith, c.count); each = each_down n d c }

-- A range away from the ends of the calendar is split into its days, each once, upwards or downwards
-- as asked, on fuel of one more than the days.
pub split_range-Cover :
    (n start : ℕ)
    → 1 < start
    → start + n < date_max
    → ((up : List DayWindow) × (split_range_into_days (suc (suc n)) start (start + n) "oldest_first"
          ≡ some (up, ok tt))
        × Cover (λ i. start + i) (suc n) up)
      × ((down : List DayWindow) × (split_range_into_days
              (suc (suc n))
              start
              (start + n)
              "newest_first"
            ≡ some (down, ok tt))
          × Cover (λ i. start + n - i) (suc n) down)
unfolding split_range_into_days
split_range-Cover n start low high =
    let ordered : ltb (start + n) start ≡ false = ground arith in
    (
      (
        days_up (suc n) start,
        rw ordered (upwards_lem (suc n) start (start + n) (omega arith) high),
        days_up-Cover (suc n) start,
      ),
      (
        days_down (suc n) (start + n),
        rw ordered (downwards_lem (suc n) (start + n) start (omega arith) low),
        days_down-Cover (suc n) (start + n),
      ),
    )

-- A range up to the last day of the calendar, walked upwards, or from its first day, walked
-- downwards, ends by OverflowError once every day is yielded.
pub split_range_overflows :
    (n start : ℕ)
    → start + n ≡ date_max
    → ((up : List DayWindow) × (split_range_into_days (suc n) start date_max "oldest_first"
          ≡ some (up, raised overflow_error))
        × Cover (λ i. start + i) (suc n) up)
      × ((down : List DayWindow) × (split_range_into_days (suc n) 1 (n + 1) "newest_first"
            ≡ some (down, raised overflow_error))
          × Cover (λ i. n + 1 - i) (suc n) down)
unfolding split_range_into_days
split_range_overflows n start e =
    let ordered : ltb date_max start ≡ false = ground arith in
    let ordered' : ltb (n + 1) 1 ≡ false = ground arith in
    (
      (days_up (suc n) start, rw ordered (upwards_overflow n start e), days_up-Cover (suc n) start),
      (
        days_down (suc n) (n + 1),
        rw ordered' (downwards_overflow n (n + 1) refl),
        days_down-Cover (suc n) (n + 1),
      ),
    )
