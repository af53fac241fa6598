-- ===== src/Effect.antt =====
-- Python calls that raise and act on a world: what was written before a raise stays written, so
-- the world comes back beside the exception too. `W` is whatever the consumer's callbacks touch.
use datasource_kit.Prelude.{Bool, true, false, ℕ, if◌then◌else◌}

-- The exceptions that the kit's code raises, and those of the code it calls. `consumer n` is an
-- instance of `Exception`; `interrupt n` (KeyboardInterrupt, SystemExit) is only a BaseException.
pub data Exn : Type 0 where
  type_error value_error runtime_error key_error assertion_error overflow_error : Exn
  validation_error registry_error profile_error inventory_error runtime_step_error : Exn
  file_not_found os_error tombstone_error supervisor_lock_error : Exn
  consumer : ℕ → Exn
  interrupt : ℕ → Exn

-- `isinstance(exc, Exception)`
abbrev pub is_exception : Exn → Bool
is_exception (interrupt _) = false
is_exception _ = true

pub data Result {ℓ} (A : Type ℓ) : Type ℓ where
  ok : A → Result A
  raised : Exn → Result A

abbrev pub Action {ℓ} : Type ℓ → Type ℓ → Type ℓ
Action W A = W → Result A × W

module _ {ℓ} {W A : Type ℓ} where
  abbrev pub pure : A → Action W A
  pure a w = (ok a, w)

  abbrev pub raise : Exn → Action W A
  raise e w = (raised e, w)

  abbrev pub lift : Result A → Action W A
  lift r w = (r, w)

  -- `try: m except: handler`, where the handler sees every BaseException
  abbrev pub catch_any : Action W A → (Exn → Action W A) → Action W A
  catch_any m handler w =
      let (r, w') = m w in elim r [ ok a ↦ (ok a, w') | raised e ↦ handler e w' ]

module _ {ℓ} {W A B : Type ℓ} where
  abbrev continue : Result A → (A → Action W B) → Action W B
  continue (ok a) f w = f a w
  continue (raised e) f w = (raised e, w)

  infixl 5 ◌>>=◌ ◌>>◌
  abbrev pub ◌>>=◌ : Action W A → (A → Action W B) → Action W B
  ◌>>=◌ m f w = let (r, w') = m w in continue r f w'

  abbrev pub ◌>>◌ : Action W A → Action W B → Action W B
  m >> k = m >>= λ _. k

-- `except Exception: pass`
abbrev pub swallow : {W : Type 0} → Result (Unit {0}) → Action W (Unit {0})
swallow (ok _) w = (ok tt, w)
swallow (raised e) w = if is_exception e then (ok tt, w) else (raised e, w)

-- What holds of the value, if there is one.
abbrev pub Holds {ℓ κ} : {A : Type ℓ} → (A → Type κ) → Result A → Type κ
Holds P (ok a) = P a
Holds P (raised e) = Unit

pub Holds-map {ℓ κ κ'} :
    {A : Type ℓ} {P : A → Type κ} {Q : A → Type κ'} (r : Result A)
    → ((a : A) → P a → Q a)
    → Holds P r
    → Holds Q r
Holds-map (ok a) f h = f a h
Holds-map (raised e) f h = tt
