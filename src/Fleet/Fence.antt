-- ===== src/Fleet/Fence.antt =====
-- The tombstone fence of `spawn`: a consumer is let through the exec gate at most once for each
-- time that pid.json is absent, whatever fails on the way.
use datasource_kit.Prelude.{
  ℕ, ◌+◌, ◌≤◌, ◌≡◌, refl, Bool, true, false, Option, none, some, String, length, arith,
}
use datasource_kit.Prelude.Int.{ℤ, pos}
use datasource_kit.Prelude.Dict.{Dict}
use datasource_kit.Effect.{Result, ok, raised, Action, lift, ◌>>=◌}
use datasource_kit.Fleet.Json.{Value, Runtime}
use datasource_kit.Fleet.World.{
  PidFile, absent, unreadable, present, Child, World, touch, ensure_unit_dir, write_atomic,
  write_pid,
}
use datasource_kit.Fleet.Process.{
  ProcessSpec, provenance, next_child, acknowledge, own, probe, gated, after_hello, spawn_process,
  child_env, launch_intent, start_child, write_intent, open_stream, open_streams, mint_token,
  launch, spawn,
}

-- 1 where a tombstone stands
abbrev pub fenced : PidFile → ℕ
fenced absent = 0
fenced unreadable = 1
fenced (present _) = 1

-- how many consumers were let through the gate
abbrev pub launches : World → ℕ
launches w = length w.executed

-- how many clearances were audited
abbrev pub clearances : World → ℕ
clearances w = length w.audit

-- The tombstone stays, and nothing is launched.
pub record Keeps (w w' : World) : Type 0 where
  pub clearances_kept : clearances w' ≡ clearances w
  pub launches_kept : launches w' ≡ launches w
  pub fence_kept : fenced w.pid_file ≤ fenced w'.pid_file
  pub bounded : fenced w'.pid_file ≤ 1

-- The tombstone stays, and at most one consumer is launched.
pub record Gains (w w' : World) : Type 0 where
  pub clearances_kept : clearances w' ≡ clearances w
  pub launches_grow : launches w ≤ launches w'
  pub launches_by_one : launches w' ≤ launches w + 1
  pub fence_kept : fenced w.pid_file ≤ fenced w'.pid_file

-- A launch uses up the absence of the tombstone.
pub record Spends (w w' : World) : Type 0 where
  pub clearances_kept : clearances w' ≡ clearances w
  pub launches_grow : launches w ≤ launches w'
  pub spent : launches w' + fenced w.pid_file ≤ launches w + fenced w'.pid_file
  pub fence_kept : fenced w.pid_file ≤ fenced w'.pid_file

pub fenced_bounded : (p : PidFile) → fenced p ≤ 1
fenced_bounded absent = omega arith
fenced_bounded unreadable = omega arith
fenced_bounded (present _) = omega arith

pub touch-Same :
    (w : World)
    → ((touch w).1.executed ≡ w.executed)
      × ((touch w).1.pid_file ≡ w.pid_file)
      × ((touch w).1.audit ≡ w.audit)
unfolding touch
touch-Same w = ground arith

pub ensure_unit_dir-Same :
    (w : World)
    → ((ensure_unit_dir w).1.executed ≡ w.executed)
      × ((ensure_unit_dir w).1.pid_file ≡ w.pid_file)
      × ((ensure_unit_dir w).1.audit ≡ w.audit)
unfolding ensure_unit_dir
ensure_unit_dir-Same w = grind (arith, touch-Same)

write_pid-Keeps : (d : Dict Value) (w : World) → Keeps w (write_pid d w).1
unfolding write_pid write_atomic
write_pid-Keeps d w = grind (arith, touch-Same, fenced_bounded)

own-Keeps : (token : String) (pid : ℕ) (w : World) → Keeps w (own token pid w)
own-Keeps token pid w = ground (arith, fenced_bounded w.pid_file)

open_stream-Keeps : (path : Option String) (w : World) → Keeps w (open_stream path w).1
unfolding open_stream
open_stream-Keeps none w = grind (arith, fenced_bounded)
open_stream-Keeps (some p) w = grind (arith, touch-Same, fenced_bounded)

open_streams-Keeps : (spec : ProcessSpec) (w : World) → Keeps w (open_streams spec w).1
unfolding open_streams
open_streams-Keeps spec w = grind (arith, open_stream-Keeps)

probe-Keeps :
    (c : Child) (pid : ℕ) (token : String) (generation : Option ℤ) (w : World)
    → Keeps w (probe c pid token generation w).1
unfolding probe
probe-Keeps c pid token generation w = ground (arith, fenced_bounded w.pid_file)

acknowledge-Gains : (c : Child) (env : Dict String) (w : World) → Gains w (acknowledge c env w).1
unfolding acknowledge
acknowledge-Gains c env w = ground arith

next_child-Keeps : (w : World) → Keeps w (next_child w).1
unfolding next_child
next_child-Keeps w = grind (arith, fenced_bounded)

mint_token-Keeps : (rt : Runtime) (w : World) → Keeps w (mint_token rt w).1
unfolding mint_token
mint_token-Keeps rt w = ground (arith, fenced_bounded w.pid_file)

-- The intent leaves a tombstone when it returns, and no less than before when it does not.
record Fences (w : World) (r : Result (Unit {0})) (w' : World) : Type 0 where
  kept : Keeps w w'
  stands : r ≡ ok tt → fenced w'.pid_file ≡ 1

write_intent-Fences :
    (d : Dict Value) (w : World) → Fences w (write_intent d w).0 (write_intent d w).1
unfolding write_intent
write_intent-Fences d w = grind (arith, touch-Same, fenced_bounded)

module _ (persist : ℕ → Value → String → Action World (Unit {0}))
    (quiet : (pid : ℕ) (started : Value) (token : String) (w : World)
      → Keeps w (persist pid started token w).1) where
  gated-Gains :
      (c : Child) (pid : ℕ) (env : Dict String) (generation : Option ℤ) (token : String) (w : World)
      → Gains w (gated c pid persist env generation token w).1
  unfolding gated
  gated-Gains c pid env generation token w =
      grind (arith, quiet, acknowledge-Gains, probe-Keeps, own-Keeps)

  after_hello-Gains :
      (c : Child) (pid : ℕ) (ready : Bool) (env : Dict String) (generation : Option ℤ)
      (token : String) (w : World)
      → Gains w (after_hello c pid ready persist env generation token w).1
  unfolding after_hello
  after_hello-Gains c pid true env generation token w = gated-Gains c pid env generation token w
  after_hello-Gains c pid false env generation token w = ground arith

  spawn_process-Gains :
      (env : Dict String) (generation : Option ℤ) (token : String) (w : World)
      → Gains w (spawn_process persist env generation token w).1
  unfolding spawn_process
  spawn_process-Gains env generation token w = grind (arith, next_child-Keeps, after_hello-Gains)

  after_streams :
      (env : Dict String) (generation : Option ℤ) (token : String) (r : Result (Unit {0}))
      (w w' : World)
      → Keeps w w'
      → Gains w ((lift r >>= λ _. spawn_process persist env generation token) w').1
  after_streams env generation token (raised e) w w' k = record {
    clearances_kept = k.clearances_kept;
    launches_grow = omega (arith, k.launches_kept);
    launches_by_one = omega (arith, k.launches_kept);
    fence_kept = k.fence_kept;
  }
  after_streams env generation token (ok u) w w' k =
      let g = spawn_process-Gains env generation token w' in
      record {
        clearances_kept = omega (arith, k.clearances_kept, g.clearances_kept);
        launches_grow = omega (arith, k.launches_kept);
        launches_by_one = omega (arith, k.launches_kept);
        fence_kept = omega (arith, k.fence_kept, g.fence_kept);
      }

module _ (rt : Runtime) (zero_time : Value) where
  start_child-Gains :
      (spec : ProcessSpec) (generation : Option ℤ) (template : Dict Value) (token : String)
      (w : World)
      → Gains w (start_child rt zero_time spec generation template token w).1
  unfolding start_child
  start_child-Gains spec generation template token w =
      let persist : ℕ → Value → String → Action World (Unit {0}) = λ pid started given. write_pid (
        provenance template (Value.int (pos pid)) started spec.unit generation given
          "running_or_unknown") in
      let env = child_env rt spec generation w.environ in
      after_streams persist (λ pid started given v. write_pid-Keeps _ v) env generation token
        (open_streams spec w).0 w (open_streams spec w).1 (open_streams-Keeps spec w)

  after_intent :
      (spec : ProcessSpec) (generation : Option ℤ) (template : Dict Value) (token : String)
      (w w' : World) (r : Result (Unit {0}))
      → fenced w.pid_file ≡ 0
      → Fences w r w'
      → Spends w ((lift r >>= λ _. start_child rt zero_time spec generation template token) w').1
  after_intent spec generation template token w w' (raised e) free f =
      let k = f.kept in
      record {
        clearances_kept = omega arith;
        launches_grow = omega arith;
        spent = omega arith;
        fence_kept = k.fence_kept;
      }
  after_intent spec generation template token w w' (ok u) free f =
      let k = f.kept in
      let s : fenced w'.pid_file ≡ 1 = f.stands refl in
      let g = start_child-Gains spec generation template token w' in
      record {
        clearances_kept = omega arith;
        launches_grow = omega arith;
        spent = omega arith;
        fence_kept = omega arith;
      }

  launch-Spends :
      (spec : ProcessSpec) (generation : Option ℤ) (template : Dict Value) (w : World)
      → fenced w.pid_file ≡ 0
      → Spends w (launch rt zero_time spec generation template w).1
  unfolding launch mint_token
  launch-Spends spec generation template w free =
      let token = rt.uuid_hex w.minted in
      let minted = record w { minted = w.minted + 1 } in
      let (r, w') =
        write_intent (launch_intent rt zero_time spec generation template token) minted in
      let s =
        after_intent spec generation template token minted w' r free (
          write_intent-Fences (launch_intent rt zero_time spec generation template token) minted) in
      record {
        clearances_kept = s.clearances_kept;
        launches_grow = s.launches_grow;
        spent = s.spent;
        fence_kept = s.fence_kept;
      }

  -- Whatever fails on the way, `spawn` launches at most one consumer, none where a tombstone stood,
  -- and leaves a tombstone where it launched one.
  pub spawn-Spends :
      (spec : ProcessSpec) (generation : Option ℤ) (w : World)
      → Spends w (spawn rt zero_time spec generation w).1
  unfolding spawn
  spawn-Spends spec generation w = grind (arith, launch-Spends, ensure_unit_dir-Same)
