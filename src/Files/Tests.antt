-- ===== src/Files/Tests.antt =====
-- Two threads that save, one of them with a failing `fsync`, and a leftover temporary file.
use datasource_kit.Prelude.{ℕ, zero, ◌≡◌, ◌⊎◌, refl, Option, none, some, List, [], ◌∷◌, arith}
use datasource_kit.Effect.{Exn, os_error, value_error, Result, ok, raised}
use datasource_kit.Files.Replace.{File, partial, whole, ended, load, step, advance, schedule}
use datasource_kit.Files.Crash.{begun, load_after_crash}
use datasource_kit.Files.Ends.{save_stores}

-- the value of a thread is ten more than its number
abbrev payload : ℕ → ℕ
payload zero = 10
payload _ = 11

abbrev parse : File ℕ → Result ℕ
parse partial = raised value_error
parse (whole c) = ok c

abbrev leftover : ℕ → Option (File ℕ)
leftover _ = some partial

abbrev order : List (ℕ × Option Exn)
order =
    (0, none)
    ∷ (1, none)
    ∷ (0, none)
    ∷ (0, none)
    ∷ (1, none)
    ∷ (0, none)
    ∷ (0, none)
    ∷ (1, some os_error)
    ∷ (0, none)
    ∷ (0, none)
    ∷ []

-- thread 0 has saved, whatever thread 1 did
saved :
    ((schedule payload order (begun payload (some (whole 3)) leftover)).disk).target
    ≡ some (whole 10)
unfolding schedule advance step
saved = refl

abbrev now : Option (File ℕ)
now = ((schedule payload order (begun payload (some (whole 3)) leftover)).disk).target

load_after_crash_example :
    (load parse now ≡ load parse (some (whole 3)))
    ⊎ (who : ℕ) × (load parse now ≡ ok (some (payload who)))
load_after_crash_example =
    load_after_crash payload parse (some (whole 3)) leftover order (λ c. refl)

save_stores_example :
    ((schedule payload order (begun payload (some (whole 3)) leftover)).phase 0 ≡ ended (ok tt))
    × ((who : ℕ) × (load parse now ≡ ok (some (payload who))))
save_stores_example =
    save_stores payload parse 0 order (some (whole 3)) leftover (λ c. refl) (omega arith) refl
