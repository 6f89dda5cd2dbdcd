-- ===== src/Server/Listen.antt =====
-- transport/transport_server.rs: a listener's loop and the addition of a session, and the scanner's
-- end. What the protocol's `accept` yields is an argument.
use msgtrans.Prelude.{
  ℕ, ◌+◌, ◌-◌, [], ◌∷◌, ◌++◌, map, Bool, true, false, ◌||◌, ◌==◌, set, if◌then◌else◌,
}
use msgtrans.Prelude.Map.{nat_eq, insert}
use msgtrans.Registry.{add64}
use msgtrans.Registry.Register.{open_session}
use msgtrans.ConnectionState.{add_connection}
use msgtrans.Server.{
  Session, runs, selects, Infra, scanner, accepting, finished, gating, inserting, tracking,
  registering, rechecking, Server, infra_cancelled,
}

-- What an infrastructure task meets while it waits. `sees_cancel` is taken only where the token is
-- cancelled.
pub data Accepted : Type 0 where
  accepts : (piped : Bool) → Accepted
  fails sees_cancel panics : Accepted

-- The drop of `InfraFailFast` at the end of a task.
unfoldable pub fail_fast : Server → Server
fail_fast s = if infra_cancelled s then s else record s { infra_failed = true; infra_token = true }

abbrev pub at_infra : Server → ℕ → Infra → Server
at_infra s i task = record s { infra = set s.infra i task }

-- `try_acquire_owned`, and the session's id; at capacity the connection is closed.
unfoldable pub admit_connection : Server → ℕ → Bool → Server
admit_connection s i piped =
    if s.permits == 0
    then s
    else at_infra
        (record s {
          permits = s.permits - 1;
          session_id_generator = add64 s.session_id_generator 1;
        })
        i (gating s.session_id_generator piped)

unfoldable pub accept_turn : Server → ℕ → Accepted → Server
unfolding admit_connection fail_fast
accept_turn s i (accepts piped) = admit_connection s i piped
accept_turn s i fails = if infra_cancelled s then at_infra s i finished else s
accept_turn s i sees_cancel = if infra_cancelled s then at_infra s i finished else s
accept_turn s i panics = at_infra (fail_fast s) i finished

-- A new session's runtime: its actor and its pump are spawned.
unfoldable pub spawn_session : ℕ → Bool → Session
spawn_session id piped = record {
  id = id;
  piped = piped;
  cancelled = false;
  actor = runs;
  pump = runs;
  watch = selects;
}

-- `child_cancel.cancel()`, by the session's id.
abbrev pub cancel_if : ℕ → Session → Session
cancel_if id x = record x { cancelled = x.cancelled || (x.id == id) }

-- The next stretch of one infrastructure task. A session that is refused by the gate gives its
-- permit back.
unfoldable pub infra_turn : Server → ℕ → Infra → Accepted → Server
unfolding accept_turn fail_fast spawn_session
infra_turn s i scanner panics = at_infra (fail_fast s) i finished
infra_turn s i scanner _ = if infra_cancelled s then at_infra s i finished else s
infra_turn s i accepting accepted = accept_turn s i accepted
infra_turn s i finished _ = s
infra_turn s i (gating id piped) _ =
    if s.admission_open
    then at_infra s i (inserting id piped)
    else at_infra (record s { permits = s.permits + 1 }) i accepting
infra_turn s i (inserting id piped) _ =
    at_infra
      (record s {
        transports = insert id tt s.transports;
        state_manager = add_connection s.state_manager id;
        request_registry = open_session s.request_registry id;
        session_handles = insert id tt s.session_handles;
      })
      i (tracking (spawn_session id piped))
infra_turn s i (tracking x) _ = at_infra s i (registering x)
infra_turn s i (registering x) _ =
    at_infra
      (record s {
        session_cancels = insert x.id tt s.session_cancels;
        sessions = s.sessions ++ (x ∷ []);
      })
      i (rechecking x.id)
infra_turn s i (rechecking id) _ =
    if s.admission_open
    then at_infra s i accepting
    else at_infra (record s { sessions = map (cancel_if id) s.sessions }) i accepting
