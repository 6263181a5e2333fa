-- ===== src/Discovery/Timers.antt =====
-- discovery-service.ts: the timers that `start` arms and `stop` clears. What they run when they fire is
-- Discovery.Announcing.
pub mod Stopped
use dchat_desktop.Common.{
  ℕ, zero, suc, ◌+◌, Bool, not, Option, none, some, List, [], ◌∷◌, ◌≡◌, ◌⊎◌, inl, inr, refl, All,
  select, nat_eq, if◌then◌else◌, arith,
}

-- The four fields, and what stands behind them: the timers that the event loop will still fire, and the
-- listeners for the connection. `next_id` is the handle of the next timer.
pub record Timers : Type 0 where
  pub initial_timer : Option ℕ
  pub broadcast_timer : Option ℕ
  pub verify_timer : Option ℕ
  pub cleanup_timer : Option ℕ
  pub armed : List ℕ
  pub next_id : ℕ
  pub listeners : ℕ

abbrev pub no_timers : ℕ → Timers
no_timers n = record {
  initial_timer = none;
  broadcast_timer = none;
  verify_timer = none;
  cleanup_timer = none;
  armed = [];
  next_id = n;
  listeners = 0;
}

-- `startNetworkTasks`
unfoldable pub start_network_tasks : Timers → Timers
start_network_tasks t = record t {
  initial_timer = some t.next_id;
  broadcast_timer = some (1 + t.next_id);
  verify_timer = some (2 + t.next_id);
  cleanup_timer = some (3 + t.next_id);
  armed = t.next_id ∷ (1 + t.next_id) ∷ (2 + t.next_id) ∷ (3 + t.next_id) ∷ t.armed;
  next_id = 4 + t.next_id;
}

-- `start`, after the seeds and the scan.
unfoldable pub start_timers : (is_connected : Bool) → Timers → Timers
unfolding start_network_tasks
start_timers is_connected t =
    if is_connected then start_network_tasks t else record t { listeners = suc t.listeners }

-- `onStatusChange` in the state connected: every listener removes itself and starts the tasks.
unfoldable pub start_each : ℕ → Timers → Timers
unfolding start_network_tasks
start_each zero t = t
start_each (suc n) t = start_each n (start_network_tasks t)

unfoldable pub on_status_connected : Timers → Timers
unfolding start_each
on_status_connected t = start_each t.listeners (record t { listeners = 0 })

-- `clearTimeout` and `clearInterval` of a field that is set.
unfoldable pub clear : Option ℕ → List ℕ → List ℕ
clear none ids = ids
clear (some i) ids = select (λ x. not (nat_eq x i)) ids

-- The initial timer fires once; its field keeps the handle.
unfoldable pub initial_fires : Timers → Timers
unfolding clear
initial_fires t = record t { armed = clear t.initial_timer t.armed }

-- `stop`
unfoldable pub stop_timers : Timers → Timers
unfolding clear
stop_timers t = record t {
  initial_timer = none;
  broadcast_timer = none;
  verify_timer = none;
  cleanup_timer = none;
  armed =
      clear t.initial_timer
        (clear t.cleanup_timer (clear t.verify_timer (clear t.broadcast_timer t.armed)));
}

pub data TimerEvent : Type 0 where
  connects : TimerEvent
  fires : TimerEvent
  stops : TimerEvent

unfoldable pub step : TimerEvent → Timers → Timers
unfolding on_status_connected initial_fires stop_timers
step connects t = on_status_connected t
step fires t = initial_fires t
step stops t = stop_timers t

unfoldable pub run_timers : List TimerEvent → Timers → Timers
unfolding step
run_timers [] t = t
run_timers (e ∷ es) t = run_timers es (step e t)
