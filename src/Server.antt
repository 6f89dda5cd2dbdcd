-- ===== src/Server.antt =====
-- transport/transport_server.rs: the tasks of a server and what they share. A turn is a stretch of
-- one task's code: between two awaits, or shorter where another task can come between.
use msgtrans.Prelude.{
  ℕ, ◌-◌, ◌^◌, List, [], ◌∷◌, Option, none, some, Bool, true, false, ◌||◌, ◌==◌, if◌then◌else◌,
}
use msgtrans.Prelude.Map.{nat_eq, Map, get, insert, remove, is_some}
use msgtrans.Errors.{TransportError, CloseReason}
use msgtrans.Registry.{RequestRegistry, new_registry}
use msgtrans.Registry.Close.{close_session_pending}
use msgtrans.ConnectionState.{
  Manager, new_manager, try_start_closing, mark_closed, remove_connection,
}
pub mod Listen
pub mod Supervise
pub mod Serve
pub mod Shutdown
pub mod Turns
pub mod Capacity
pub mod Order
pub mod Finality
pub mod Live
pub mod Listed
pub mod Leaks
mod Tests

pub data Phase : Type 0 where
  idle starting running shutting_down stopped : Phase

-- The code behind `server_phase`.
abbrev pub phase_u8 : Phase → ℕ
phase_u8 idle = 0
phase_u8 starting = 1
phase_u8 running = 2
phase_u8 shutting_down = 3
phase_u8 stopped = 4

abbrev pub is_phase : Phase → Phase → Bool
is_phase a b = phase_u8 a == phase_u8 b

-- How far a task of a session is: it ended, or panicked.
pub data Task : Type 0 where
  runs ended panicked : Task

abbrev pub is_running : Task → Bool
is_running runs = true
is_running _ = false

abbrev pub is_panicked : Task → Bool
is_panicked panicked = true
is_panicked _ = false

-- What the supervisor of a session has observed: nothing, or the end of one of its two tasks.
pub data Watch : Type 0 where
  selects awaits_other : Watch

-- `piped`: the connection had an event pipe. `cancelled`: the session's own token.
pub record Session : Type 0 where
  pub id : ℕ
  pub piped : Bool
  pub cancelled : Bool
  pub actor : Task
  pub pump : Task
  pub watch : Watch

-- Where an infrastructure task stands: the timeout scanner, or a listener, which accepts and then
-- adds the session that it accepted. A session from `registering` on has its supervisor's task.
pub data Infra : Type 0 where
  scanner accepting finished : Infra
  gating inserting : (id : ℕ) → (piped : Bool) → Infra
  tracking registering : Session → Infra
  rechecking : (id : ℕ) → Infra

-- Where the owned startup task stands.
pub data Startup : Type 0 where
  unstarted : Startup
  building : (left : ℕ) → Startup
  listening : (left : ℕ) → Startup
  publishing draining done : Startup

-- Where the owner of the shutdown lock stands.
pub data ShuttingDown : Type 0 where
  absent phasing gate_closing offering cancelling joining_sessions marking_stopped : ShuttingDown
  joining_infra joining_stragglers reporting : ShuttingDown

-- The elapsed time is left out.
pub record ShutdownReport : Type 0 where
  pub sessions_closed : ℕ
  pub sessions_remaining : ℕ
  pub infra_stopped : Bool
  pub permits_restored : Bool
  pub clean : Bool

-- A map whose values are not looked into maps to `Unit`. `sessions` and `infra` are the tasks that
-- the two trackers own.
pub record Server : Type 0 where
  pub protocols : ℕ
  pub transports : Map ℕ (Unit {0})
  pub session_handles : Map ℕ (Unit {0})
  pub session_cancels : Map ℕ (Unit {0})
  pub session_id_generator : ℕ
  pub state_manager : Manager
  pub request_registry : RequestRegistry
  pub permits : ℕ
  pub max_connections : ℕ
  pub root_cancelled : Bool
  pub infra_token : Bool
  pub infra_failed : Bool
  pub serve_error : Option TransportError
  pub admission_open : Bool
  pub phase : Phase
  pub sessions : List Session
  pub infra : List Infra
  pub startup : Startup
  pub shutdown : ShuttingDown
  pub never_served : Bool
  pub initial_sessions : ℕ
  pub sessions_closed : ℕ
  pub infra_stopped : Bool
  -- the close events that were offered to actors, the latest first, and the shutdowns' reports
  pub offers : List (ℕ × CloseReason)
  pub reports : List ShutdownReport

abbrev pub usize_max : ℕ
usize_max = 2 ^ 64 - 1

-- `Semaphore::MAX_PERMITS`.
abbrev pub max_permits : ℕ
max_permits = 2 ^ 61 - 1

-- `TransportServer::new` with a number of protocols.
unfoldable pub new_server : ℕ → Server
new_server protocols = record {
  protocols = protocols;
  transports = [];
  session_handles = [];
  session_cancels = [];
  session_id_generator = 1;
  state_manager = new_manager;
  request_registry = record (new_registry) { next_id = 10000 };
  permits = max_permits;
  max_connections = usize_max;
  root_cancelled = false;
  infra_token = false;
  infra_failed = false;
  serve_error = none;
  admission_open = true;
  phase = idle;
  sessions = [];
  infra = [];
  startup = unstarted;
  shutdown = absent;
  never_served = false;
  initial_sessions = 0;
  sessions_closed = 0;
  infra_stopped = false;
  offers = [];
  reports = [];
}

unfoldable pub with_max_connections : Server → ℕ → Server
with_max_connections s most = record s { permits = most; max_connections = most }

-- The infrastructure's token is a child of the root's.
abbrev pub infra_cancelled : Server → Bool
infra_cancelled s = s.infra_token || s.root_cancelled

unfoldable pub remove_session : Server → ℕ → Server
remove_session s id = record s {
  request_registry = (close_session_pending s.request_registry id).1;
  transports = remove id s.transports;
  session_handles = remove id s.session_handles;
  state_manager = remove_connection s.state_manager id;
}

unfoldable pub notify_actor_closed : Server → ℕ → CloseReason → Server
notify_actor_closed s id reason =
    if is_some (get id s.session_handles) then record s { offers = (id, reason) ∷ s.offers } else s

-- `close_session` and `force_close_session`, which give other reasons; the transport's own
-- disconnect changes nothing of the server.
unfoldable pub close_as : CloseReason → Server → ℕ → Server
unfolding notify_actor_closed remove_session
close_as reason s id =
    let (starts, m) = try_start_closing s.state_manager id in
    let notified = notify_actor_closed (record s { state_manager = m }) id reason in
    if starts
    then remove_session (record notified { state_manager = mark_closed notified.state_manager id })
        id
    else s
