-- ===== src/Server/Shutdown.antt =====
-- transport/transport_server.rs: `stop` and `shutdown_with_timeout`.
use msgtrans.Prelude.{
  ℕ, ◌+◌, ◌-◌, List, [], ◌∷◌, ◌++◌, Bool, true, false, ◌&&◌, ◌||◌, ◌==◌, max, length, if◌then◌else◌,
}
use msgtrans.Prelude.Map.{nat_eq, keys}
use msgtrans.Errors.{CloseReason, normal}
use msgtrans.Server.{
  Phase, idle, starting, running, shutting_down, stopped, is_phase, Infra, registering,
  ShuttingDown, absent, phasing, gate_closing, offering, cancelling, joining_sessions,
  marking_stopped, joining_infra, joining_stragglers, reporting, ShutdownReport, Server, usize_max,
}

-- The sessions whose supervisor is spawned and not yet let go.
abbrev pub registering_count : List Infra → ℕ
registering_count [] = 0
registering_count (registering x ∷ tasks) = registering_count tasks + 1
registering_count (_ ∷ tasks) = registering_count tasks

-- `session_tracker.len()`.
abbrev pub live_session_tasks : Server → ℕ
live_session_tasks s = length s.sessions + registering_count s.infra

unfoldable pub stop : Server → Server
stop s = record s { infra_token = true }

abbrev pub permits_restored : Server → Bool
permits_restored s = s.max_connections == usize_max || s.permits == s.max_connections

abbrev pub sessions_remaining : Server → ℕ
sessions_remaining s = max (live_session_tasks s) (length s.transports)

unfoldable pub report : Server → ShutdownReport
report s = record {
  sessions_closed = s.sessions_closed;
  sessions_remaining = sessions_remaining s;
  infra_stopped = s.infra_stopped;
  permits_restored = permits_restored s;
  clean = sessions_remaining s == 0 && (s.infra_stopped && permits_restored s);
}

-- The report of a caller that did not get the lock in time.
unfoldable pub report_snapshot : Server → ShutdownReport
report_snapshot s = record {
  sessions_closed = 0;
  sessions_remaining = sessions_remaining s;
  infra_stopped = is_phase s.phase stopped;
  permits_restored = permits_restored s;
  clean = false;
}

-- The loop of the compare-and-swap, which ends by its first success.
unfoldable pub begin_shutdown : Server → Phase → Server
begin_shutdown s idle = record s { phase = shutting_down; never_served = true }
begin_shutdown s starting = record s { phase = shutting_down; never_served = false }
begin_shutdown s running = record s { phase = shutting_down; never_served = false }
begin_shutdown s shutting_down = record s { never_served = false }
begin_shutdown s stopped = record s { never_served = false }

abbrev offered : List ℕ → List (ℕ × CloseReason)
offered [] = []
offered (id ∷ ids) = (id, normal) ∷ offered ids

abbrev pub goes_to : Server → ShuttingDown → Server
goes_to s where_to = record s { shutdown = where_to }

-- The next stretch of the shutdown that holds the lock. A wait ends by its condition, or when the
-- deadline has expired.
unfoldable pub shutdown_turn : Server → ShuttingDown → Bool → Server
unfolding begin_shutdown report
shutdown_turn s absent expired = s
shutdown_turn s phasing expired = goes_to (begin_shutdown s s.phase) gate_closing
shutdown_turn s gate_closing expired = goes_to (record s { admission_open = false }) offering
shutdown_turn s offering expired =
    goes_to (record s { offers = offered (keys s.session_handles) ++ s.offers }) cancelling
shutdown_turn s cancelling expired =
    goes_to (record s { root_cancelled = true; initial_sessions = live_session_tasks s })
      joining_sessions
shutdown_turn s joining_sessions expired =
    if live_session_tasks s == 0 || expired
    then goes_to (record s { sessions_closed = s.initial_sessions - live_session_tasks s })
        marking_stopped
    else s
shutdown_turn s marking_stopped expired =
    if s.never_served
    then goes_to (record s { phase = stopped }) joining_infra
    else goes_to s joining_infra
shutdown_turn s joining_infra expired =
    if is_phase s.phase stopped
    then goes_to (record s { infra_stopped = true }) joining_stragglers
    else (if expired then goes_to (record s { infra_stopped = false }) joining_stragglers else s)
shutdown_turn s joining_stragglers expired =
    if live_session_tasks s == 0 || expired then goes_to s reporting else s
shutdown_turn s reporting expired = goes_to (record s { reports = report s ∷ s.reports }) absent

-- The caller drops the future: at one of its awaits, the lock is given back.
unfoldable pub drop_shutdown : Server → ShuttingDown → Server
drop_shutdown s joining_sessions = goes_to s absent
drop_shutdown s joining_infra = goes_to s absent
drop_shutdown s joining_stragglers = goes_to s absent
drop_shutdown s _ = s
