-- ===== src/Server/Supervise.antt =====
-- transport/transport_server.rs: the two tasks of a session, and its supervisor.
use msgtrans.Prelude.{ℕ, ◌+◌, not, ◌&&◌, ◌||◌, set, erase, if◌then◌else◌}
use msgtrans.Prelude.Map.{nat_eq, get, remove, is_some}
use msgtrans.Registry.Close.{close_session_pending}
use msgtrans.Server.{
  Task, runs, ended, panicked, is_running, is_panicked, Watch, selects, awaits_other, Session,
  Server, remove_session,
}

-- What happens to one of a session's tasks: it ends, or panics.
pub data Happening : Type 0 where
  actor_ends actor_panics pump_ends pump_panics : Happening

-- A task ends once.
abbrev pub end_task : Task → Task → Task
end_task runs how = how
end_task ended how = ended
end_task panicked how = panicked

unfoldable pub happens : Session → Happening → Session
happens x actor_ends = record x { actor = end_task x.actor ended }
happens x actor_panics = record x { actor = end_task x.actor panicked }
happens x pump_ends = record x { pump = end_task x.pump ended }
happens x pump_panics = record x { pump = end_task x.pump panicked }

unfoldable pub pump_teardown : Server → ℕ → Server
unfolding remove_session
pump_teardown s id =
    let drained = record s { request_registry = (close_session_pending s.request_registry id).1 } in
    if is_some (get id drained.transports) then remove_session drained id else drained

-- The pump of a connection that had a pipe ends by its teardown.
unfoldable pub tear_down : Server → Session → Happening → Server
unfolding pump_teardown
tear_down s x pump_ends = if x.piped && is_running x.pump then pump_teardown s x.id else s
tear_down s x _ = s

-- The supervisor sees the end of a task; if it was a panic, it cancels the sibling.
abbrev pub observe : Session → Task → Session
observe x task = record x { watch = awaits_other; cancelled = x.cancelled || is_panicked task }

-- Both tasks are joined: the maps are cleaned, and the permit and the tracker's count go with the
-- supervisor.
unfoldable pub finalize : Server → ℕ → ℕ → Server
unfolding remove_session
finalize s i id =
    let s' = remove_session s id in
    record s' {
      session_cancels = remove id s'.session_cancels;
      sessions = erase s'.sessions i;
      permits = s'.permits + 1;
    }

abbrev pub at_session : Server → ℕ → Session → Server
at_session s i x = record s { sessions = set s.sessions i x }

-- The next stretch of the supervisor of the session at an index. Where both tasks have ended, the
-- actor's end is the one that it sees.
unfoldable pub supervise : Server → ℕ → Session → Watch → Server
unfolding finalize
supervise s i x selects =
    if not (is_running x.actor)
    then at_session s i (observe x x.actor)
    else (if not (is_running x.pump) then at_session s i (observe x x.pump) else s)
supervise s i x awaits_other =
    if is_running x.actor || is_running x.pump then s else finalize s i x.id
