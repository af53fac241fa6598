-- ===== src/Runtime/Counting.antt =====
-- runtime.py: counts over the warnings and the reports of a run.
use datasource_kit.Prelude.{ℕ, zero, suc, ◌+◌, ◌≡◌, refl, List, [], ◌∷◌, ◌++◌, arith}
use datasource_kit.Runtime.Ingest.{WindowReport, Warning, invalid_records, window_failed}
use datasource_kit.Runtime.Trace.{complaints}

-- the windows that failed
abbrev pub failures : {X : Type 0} → List (Warning X) → ℕ
failures [] = 0
failures (invalid_records n x ∷ ws) = failures ws
failures (window_failed x e ∷ ws) = suc (failures ws)

-- the records of all reports
abbrev pub persistable_total : {X : Type 0} → List (WindowReport X) → ℕ
persistable_total [] = 0
persistable_total (r ∷ rs) = r.persistable + persistable_total rs

pub failures-append :
    {X : Type 0} (a b : List (Warning X)) → failures (a ++ b) ≡ failures a + failures b
failures-append [] b = omega arith
failures-append (invalid_records n x ∷ a) b = failures-append a b
failures-append (window_failed x e ∷ a) b = omega (arith, failures-append a b)

pub failures-complaints : {X : Type 0} (n : ℕ) (x : X) → failures (complaints n x) ≡ 0
failures-complaints zero x = refl
failures-complaints (suc n) x = refl

pub persistable-append :
    {X : Type 0} (a b : List (WindowReport X))
    → persistable_total (a ++ b) ≡ persistable_total a + persistable_total b
persistable-append [] b = omega arith
persistable-append (r ∷ a) b = omega (arith, persistable-append a b)
