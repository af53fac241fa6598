-- ===== src/Ledger/Atomic.antt =====
-- ledger.py: `_atomic_write`, call by call, with the faults of the calls.
use mathlib.Core.Path.{subst}
use text.Mathlib.Text.{◌==◌ as str_eq}
use text.Mathlib.TextEquality.{eq_iff}
use datasource_kit.Prelude.{
  ◌≡◌, ◌∙◌, sym, refl, ap, ◌⊎◌, inl, inr, Bool, true, ◌&&◌, Option, none, some, String, List, [],
  ◌∷◌, arith, if◌then◌else◌,
}
use datasource_kit.Effect.{Exn, Result, ok, raised, Action, pure, lift, ◌>>=◌, ◌>>◌, Holds}

-- the folder of a window
pub record Folder : Type 0 where
  pub source : String
  pub window_key : String

-- a file's place and the text for it
pub record Write : Type 0 where
  pub folder : Folder
  pub name : String
  pub content : String

-- what a file holds: a whole text, or less than that
pub data Text : Type 0 where
  partial : Text
  whole : String → Text

-- the files below the ledger's root, by their folder and name
abbrev pub Files : Type 0
Files = Folder → String → Option Text

-- The files, and the temporary ones of this process: the name of a temporary file is its target's with the
-- process behind it, so that `temps` has it under the target's name. `faults` is what the next calls
-- raise, `none` for a call that returns.
pub record Disk : Type 0 where
  pub target : Files
  pub temps : Files
  pub faults : List (Option Exn)

-- a system call, which may raise
unfoldable pub call : Action Disk (Unit {0})
call w = elim w.faults [
  | [] ↦ (ok tt, w)
  | none ∷ rest ↦ (ok tt, record w { faults = rest })
  | some e ∷ rest ↦ (raised e, record w { faults = rest })
]

abbrev same_place : Write → Folder → String → Bool
same_place f d n =
    str_eq (f.folder).source d.source
    && str_eq (f.folder).window_key d.window_key
    && str_eq f.name n

abbrev put_file : Write → Option Text → Files → Files
put_file f t files d n = if same_place f d n then t else files d n

-- the files with the whole text in the place of a write
abbrev pub put : Write → Files → Files
put f = put_file f (some (whole f.content))

abbrev put_temp : Write → Option Text → Action Disk (Unit {0})
put_temp f t w = (ok tt, record w { temps = put_file f t w.temps })

-- `finally`: an exception of the last action replaces the outcome
abbrev replaced_by : Result (Unit {0}) → Result (Unit {0}) → Result (Unit {0})
replaced_by (ok _) r = r
replaced_by (raised e) r = raised e

abbrev finally : Action Disk (Unit {0}) → Action Disk (Unit {0}) → Action Disk (Unit {0})
finally m last w = let (r, v) = m w in let (x, w') = last v in (replaced_by x r, w')

-- `fh.write`, `fh.flush`, `os.fsync`: the text is whole once it is flushed
unfoldable pub write_text : Write → Action Disk (Unit {0})
unfolding call
write_text f = do call; call; put_temp f (some (whole f.content)); call

-- `with tmp.open("wb") as fh`, which closes the file at its end
unfoldable pub write_temp : Write → Action Disk (Unit {0})
unfolding write_text
write_temp f = do call; put_temp f (some partial); finally (write_text f) call

-- `os.replace(tmp, target)`
abbrev move : Write → Action Disk (Unit {0})
move f w = (
  ok tt,
  record w {
    target = put_file f (w.temps f.folder f.name) w.target;
    temps = put_file f none w.temps;
  },
)

abbrev unlink_found : Write → Option Text → Action Disk (Unit {0})
unlink_found f none = pure tt
unlink_found f (some t) = call >> put_temp f none

-- `if tmp.exists(): tmp.unlink()`
unfoldable pub clean : Write → Action Disk (Unit {0})
unfolding call
clean f = call >> (λ w. unlink_found f (w.temps f.folder f.name) w)

-- `_atomic_write`
unfoldable pub atomic_write : Write → Action Disk (Unit {0})
unfolding write_temp clean
atomic_write f = finally (do write_temp f; call; move f) (clean f)

pub call-target : (w : Disk) → (call w).1.target ≡ w.target
unfolding call
call-target w = ground arith

call-temps : (w : Disk) → (call w).1.temps ≡ w.temps
unfolding call
call-temps w = ground arith

same_place_refl : (f : Write) → same_place f f.folder f.name ≡ true
same_place_refl f =
    rw
      (
        (eq_iff (f.folder).source (f.folder).source).1 refl,
        (eq_iff (f.folder).window_key (f.folder).window_key).1 refl,
        (eq_iff f.name f.name).1 refl,
      )
      refl

write_text-target : (f : Write) (w : Disk) → (write_text f w).1.target ≡ w.target
unfolding write_text
write_text-target f w = grind (arith, call-target)

write_text-temps :
    (f : Write) (w : Disk)
    → let out = write_text f w in
      Holds (λ _. (out.1).temps f.folder f.name ≡ some (whole f.content)) out.0
unfolding write_text
write_text-temps f w = grind (arith, call-temps, same_place_refl f)

write_temp-target : (f : Write) (w : Disk) → (write_temp f w).1.target ≡ w.target
unfolding write_temp
write_temp-target f w = grind (arith, call-target, write_text-target f)

write_temp-temps :
    (f : Write) (w : Disk)
    → let out = write_temp f w in
      Holds (λ _. (out.1).temps f.folder f.name ≡ some (whole f.content)) out.0
unfolding write_temp
write_temp-temps f w = grind (arith, call-temps, write_text-temps f)

clean-target : (f : Write) (w : Disk) → (clean f w).1.target ≡ w.target
unfolding clean
clean-target f w = grind (arith, call-target)

-- What a call has changed in the files: it put its own in place if it returned, that or nothing if it
-- raised.
abbrev pub Put : Files → Write → Result (Unit {0}) → Files → Type 0
Put before f (ok _) after = after ≡ put f before
Put before f (raised e) after = (after ≡ before) ⊎ (after ≡ put f before)

-- the end of the `try`, before the `finally`
abbrev Moved : Files → Write → Result (Unit {0}) → Files → Type 0
Moved before f (ok _) after = after ≡ put f before
Moved before f (raised e) after = after ≡ before

after_replace :
    (before : Files) (f : Write) (r : Result (Unit {0})) (w : Disk)
    → w.target ≡ before
    → w.temps f.folder f.name ≡ some (whole f.content)
    → let out = (lift r >>= λ _. move f) w in Moved before f out.0 (out.1).target
after_replace before f (raised e) w same text = same
after_replace before f (ok u) w same text = rw (same, text) refl

after_temp :
    (before : Files) (f : Write) (r : Result (Unit {0})) (w : Disk)
    → w.target ≡ before
    → Holds (λ _. w.temps f.folder f.name ≡ some (whole f.content)) r
    → let out = (lift r >>= λ _. call >> move f) w in Moved before f out.0 (out.1).target
after_temp before f (raised e) w same text = same
after_temp before f (ok u) w same text =
    let (r, v) = call w in
    after_replace before f r v (call-target w ∙ same)
      (ap (λ t. t f.folder f.name) (call-temps w) ∙ text)

at_end :
    (before : Files) (f : Write) (r x : Result (Unit {0})) (after : Files)
    → Moved before f r after
    → Put before f (replaced_by x r) after
at_end before f (ok u) (ok v) after k = k
at_end before f (ok u) (raised e) after k = inr k
at_end before f (raised e) (ok v) after k = inl k
at_end before f (raised e) (raised x) after k = inl k

pub atomic_write-Put :
    (f : Write) (w : Disk) → Put w.target f (atomic_write f w).0 ((atomic_write f w).1).target
unfolding atomic_write
atomic_write-Put f w =
    let (r, v) = write_temp f w in
    let (x, u) = (lift r >>= λ _. call >> move f) v in
    let (y, w') = clean f u in
    at_end w.target f x y w'.target (
      subst (λ t. Moved w.target f x t) (sym (clean-target f u))
        (after_temp w.target f r v (write_temp-target f w) (write_temp-temps f w)))

clean-temps :
    (f : Write) (w : Disk)
    → let out = clean f w in Holds (λ _. (out.1).temps f.folder f.name ≡ none) out.0
unfolding clean
clean-temps f w = let (r, v) = call w in after_exists r v
  where
    after_unlink :
        (r : Result (Unit {0})) (v : Disk)
        → let out = (lift r >>= λ _. put_temp f none) v in
          Holds (λ _. (out.1).temps f.folder f.name ≡ none) out.0
    after_unlink (raised e) v = tt
    after_unlink (ok u) v = rw (same_place_refl f) refl

    by_found :
        (t : Option Text) (v : Disk)
        → v.temps f.folder f.name ≡ t
        → let out = unlink_found f t v in Holds (λ _. (out.1).temps f.folder f.name ≡ none) out.0
    by_found none v e = e
    by_found (some t) v e = let (r, v') = call v in after_unlink r v'

    after_exists :
        (r : Result (Unit {0})) (v : Disk)
        → let out = (lift r >>= λ _ u. unlink_found f (u.temps f.folder f.name) u) v in
          Holds (λ _. (out.1).temps f.folder f.name ≡ none) out.0
    after_exists (raised e) v = tt
    after_exists (ok u) v = by_found (v.temps f.folder f.name) v refl

cleaned :
    (P : Type 0) (r x : Result (Unit {0})) → Holds (λ _. P) x → Holds (λ _. P) (replaced_by x r)
cleaned P (ok u) (ok v) k = k
cleaned P (raised e) (ok v) k = tt
cleaned P (ok u) (raised x) k = tt
cleaned P (raised e) (raised x) k = tt

-- Whatever is raised at whichever of its calls, and whatever files there were, `_atomic_write` changes no
-- file but its own. Where it returns, the file has the whole text and no temporary file of it is left;
-- where it raises, the file is as it was or has the whole text, and never a part of it.
pub atomic_write_lem :
    (f : Write) (w : Disk)
    → let out = atomic_write f w in
      Put w.target f out.0 (out.1).target × Holds (λ _. (out.1).temps f.folder f.name ≡ none) out.0
unfolding atomic_write
atomic_write_lem f w =
    let (r, v) = write_temp f w in
    let (x, u) = (lift r >>= λ _. call >> move f) v in
    let (y, w') = clean f u in
    (atomic_write-Put f w, cleaned (w'.temps f.folder f.name ≡ none) x y (clean-temps f u))
