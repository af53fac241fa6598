-- ===== src/Threads.antt =====
-- The two synchronisation objects that a host owns (`_stop`, a threading.Event, and `_run_lock`,
-- a threading.Lock), as they are read and written in the world that the callbacks act on. Another
-- thread or a callback may set the event at any call, so it is read from the world every time.
use datasource_kit.Prelude.{◌≡◌, Bool}
use datasource_kit.Effect.{Action}

pub record Threads (W : Type 0) : Type 0 where
  -- `self._stop.is_set()`
  pub stop_is_set : W → Bool
  -- whether `_run_lock` is held, and acquiring or releasing it
  pub lock_held : W → Bool
  pub set_lock : Bool → W → W
  pub lock_held-set_lock : (b : Bool) (w : W) → lock_held (set_lock b w) ≡ b
  pub stop_is_set-set_lock : (b : Bool) (w : W) → stop_is_set (set_lock b w) ≡ stop_is_set w

-- the injectable `sleep`: `time.sleep` is replaced by a wait on the stop event
pub data Sleeper (F W : Type 0) : Type 0 where
  event_wait : (F → Action W Unit) → Sleeper F W
  injected : (F → Action W Unit) → Sleeper F W
