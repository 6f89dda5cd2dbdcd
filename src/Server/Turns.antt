-- ===== src/Server/Turns.antt =====
-- transport/transport_server.rs: the tasks of a server and its callers, in any interleaving.
use msgtrans.Prelude.{ℕ, List, [], ◌∷◌, none, some, Bool, get_elem?}
use msgtrans.Errors.{CloseReason}
use msgtrans.Server.{
  Session, Infra, scanner, accepting, finished, gating, inserting, tracking, registering,
  rechecking, ShuttingDown, absent, phasing, Server, remove_session, close_as,
}
use msgtrans.Server.Listen.{Accepted, at_infra, infra_turn}
use msgtrans.Server.Supervise.{Happening, happens, tear_down, at_session, supervise}
use msgtrans.Server.Serve.{Build, serve, startup_turn}
use msgtrans.Server.Shutdown.{stop, report_snapshot, goes_to, shutdown_turn, drop_shutdown}

pub data Turn : Type 0 where
  serves stops : Turn
  starts_up : Build → Turn
  works : (task : ℕ) → Accepted → Turn
  -- to a session that is being added, and to one of the tracked
  in_addition in_session : (index : ℕ) → Happening → Turn
  supervises : (index : ℕ) → Turn
  removes : (id : ℕ) → Turn
  closes : CloseReason → (id : ℕ) → Turn
  -- a shutdown that gets the lock, one that does not, its next stretch, and the drop of its future
  calls_shutdown misses_lock drops_shutdown : Turn
  shuts_down : (expired : Bool) → Turn

-- The session's tasks run before its supervisor is spawned.
unfoldable pub addition_turn : Server → ℕ → Infra → Happening → Server
unfolding happens tear_down
addition_turn s i (tracking x) what = at_infra (tear_down s x what) i (tracking (happens x what))
addition_turn s i (registering x) what =
    at_infra (tear_down s x what) i (registering (happens x what))
addition_turn s i scanner what = s
addition_turn s i accepting what = s
addition_turn s i finished what = s
addition_turn s i (gating id piped) what = s
addition_turn s i (inserting id piped) what = s
addition_turn s i (rechecking id) what = s

unfoldable pub session_turn : Server → ℕ → Session → Happening → Server
unfolding happens tear_down
session_turn s i x what = at_session (tear_down s x what) i (happens x what)

unfoldable pub call_shutdown : Server → ShuttingDown → Server
call_shutdown s absent = goes_to s phasing
call_shutdown s _ = s

unfoldable pub take_turn : Server → Turn → Server
take_turn s serves = (serve s).1
take_turn s stops = stop s
take_turn s (starts_up how) = startup_turn s s.startup how
take_turn s (works i accepted) = elim (get_elem? s.infra i) [
  | none ↦ s
  | some task ↦ infra_turn s i task accepted
]
take_turn s (in_addition i what) = elim (get_elem? s.infra i) [
  | none ↦ s
  | some task ↦ addition_turn s i task what
]
take_turn s (in_session i what) = elim (get_elem? s.sessions i) [
  | none ↦ s
  | some x ↦ session_turn s i x what
]
take_turn s (supervises i) = elim (get_elem? s.sessions i) [
  | none ↦ s
  | some x ↦ supervise s i x x.watch
]
take_turn s (removes id) = remove_session s id
take_turn s (closes reason id) = close_as reason s id
take_turn s calls_shutdown = call_shutdown s s.shutdown
take_turn s misses_lock = record s { reports = report_snapshot s ∷ s.reports }
take_turn s drops_shutdown = drop_shutdown s s.shutdown
take_turn s (shuts_down expired) = shutdown_turn s s.shutdown expired

-- A schedule.
unfoldable pub play : Server → List Turn → Server
play s [] = s
play s (t ∷ ts) = play (take_turn s t) ts
