-- ===== src/Server/Leaks.antt =====
-- transport/transport_server.rs: whose entries stand in the server's maps.
use msgtrans.Prelude.{
  implies, ℕ, zero, suc, ◌≡◌, refl, ap, List, [], ◌∷◌, some, inl, inr, Bool, true, not, ◌||◌, ◌==◌,
  arith, Option-cases, Bool-cases, if-both, get_elem?, set,
}
use msgtrans.Prelude.Map.{nat_eq, get, get-remove, is_some}
use msgtrans.Errors.{CloseReason}
use msgtrans.Registry.{RequestRegistry}
use msgtrans.ConnectionState.{Manager, try_start_closing}
use msgtrans.Server.{
  is_running, Session, Watch, selects, awaits_other, Infra, scanner, accepting, finished, gating,
  inserting, tracking, registering, rechecking, Startup, unstarted, building, listening, publishing,
  draining, done, ShuttingDown, Server, new_server, with_max_connections, remove_session,
  notify_actor_closed, close_as,
}
use msgtrans.Server.Supervise.{
  Happening, actor_ends, actor_panics, pump_ends, pump_panics, happens, tear_down, observe,
  finalize, supervise,
}
use msgtrans.Server.Serve.{Build, serve, startup_turn}
use msgtrans.Server.Shutdown.{stop, shutdown_turn, drop_shutdown}
use msgtrans.Server.Turns.{
  Turn, serves, stops, starts_up, works, in_addition, in_session, supervises, removes, closes,
  calls_shutdown, misses_lock, drops_shutdown, shuts_down, addition_turn, session_turn,
  call_shutdown, take_turn, play,
}
use msgtrans.Server.Live.{tracks, is_live, is_added-append, tracks-set, tracks-erase}
use msgtrans.Server.Listed.{Listed, replaces, works-Listed, removes-Listed}

-- The registry and the state manager take no part.
relabel :
    (s : Server) (r : RequestRegistry) (m : Manager) (k : ℕ)
    → Listed k s
    → Listed k (record s { request_registry = r; state_manager = m })
relabel s r m k l = record {
  transports_ok = l.transports_ok;
  handles_ok = l.handles_ok;
  cancels_ok = l.cancels_ok;
}

tear_down-Listed :
    (s : Server) (x : Session) (what : Happening) (k : ℕ)
    → Listed k s
    → Listed k (tear_down s x what)
      × ((tear_down s x what).infra ≡ s.infra)
      × ((tear_down s x what).sessions ≡ s.sessions)
unfolding tear_down remove_session
tear_down-Listed s x actor_ends k l = (l, refl, refl)
tear_down-Listed s x actor_panics k l = (l, refl, refl)
tear_down-Listed s x pump_ends k l =
    ground (arith, get-remove x.id k s.transports, get-remove x.id k s.session_handles)
tear_down-Listed s x pump_panics k l = (l, refl, refl)

happens-id : (x : Session) (what : Happening) → (happens x what).id ≡ x.id
unfolding happens
happens-id x what = ground arith

addition-Listed :
    (s : Server) (i : ℕ) (task : Infra) (what : Happening) (k : ℕ)
    → get_elem? s.infra i ≡ some task
    → Listed k s
    → Listed k (addition_turn s i task what)
unfolding addition_turn
addition-Listed s i (tracking x) what k h l =
    let (m, e, f) = tear_down-Listed s x what k l in
    replaces (tear_down s x what) i (tracking x) (tracking (happens x what)) k (rw e h)
      (ap (λ j. j == k) (happens-id x what)) m
addition-Listed s i (registering x) what k h l =
    let (m, e, f) = tear_down-Listed s x what k l in
    replaces (tear_down s x what) i (registering x) (registering (happens x what)) k (rw e h)
      (ap (λ j. j == k) (happens-id x what)) m
addition-Listed s i scanner what k h l = l
addition-Listed s i accepting what k h l = l
addition-Listed s i finished what k h l = l
addition-Listed s i (gating id piped) what k h l = l
addition-Listed s i (inserting id piped) what k h l = l
addition-Listed s i (rechecking id) what k h l = l

-- One tracked session is replaced by one of the same id.
renews :
    (s : Server) (i : ℕ) (old new : Session) (k : ℕ)
    → get_elem? s.sessions i ≡ some old
    → new.id ≡ old.id
    → Listed k s
    → Listed k (record s { sessions = set s.sessions i new })
renews s i old new k h e l = ground (arith, tracks-set s.sessions i old new k h e)

session-Listed :
    (s : Server) (i : ℕ) (x : Session) (what : Happening) (k : ℕ)
    → get_elem? s.sessions i ≡ some x
    → Listed k s
    → Listed k (session_turn s i x what)
unfolding session_turn
session-Listed s i x what k h l =
    let (m, e, f) = tear_down-Listed s x what k l in
    renews (tear_down s x what) i x (happens x what) k (rw f h) (happens-id x what) m

finalize-Listed :
    (s : Server) (i : ℕ) (x : Session) (k : ℕ)
    → get_elem? s.sessions i ≡ some x
    → Listed k s
    → Listed k (finalize s i x.id)
unfolding finalize remove_session
finalize-Listed s i x k h l = elim (Bool-cases (x.id == k)) [
  | inl own ↦ ground (
    arith,
    get-remove x.id k s.transports,
    get-remove x.id k s.session_handles,
    get-remove x.id k s.session_cancels,
  )
  | inr other ↦ ground (
    arith,
    get-remove x.id k s.transports,
    get-remove x.id k s.session_handles,
    get-remove x.id k s.session_cancels,
    tracks-erase s.sessions i x k h other,
  )
]

supervise-Listed :
    (s : Server) (i : ℕ) (x : Session) (w : Watch) (k : ℕ)
    → get_elem? s.sessions i ≡ some x
    → Listed k s
    → Listed k (supervise s i x w)
supervise-Listed s i x w k h l = at_watch w
  where
    at_watch : (w : Watch) → Listed k (supervise s i x w)
    at_watch selects =
        let a = renews s i x (observe x x.actor) k h refl l in
        let b = renews s i x (observe x x.pump) k h refl l in
        unfold supervise in
        if-both (Listed k) (not (is_running x.actor)) _ _ (λ _. a)
          (λ _. if-both (Listed k) (not (is_running x.pump)) _ _ (λ _. b) (λ _. l))
    at_watch awaits_other =
        unfold supervise in
        if-both (Listed k) (is_running x.actor || is_running x.pump) _ _ (λ _. l)
          (λ _. finalize-Listed s i x k h l)

startup-Listed :
    (s : Server) (u : Startup) (how : Build) (k : ℕ) → Listed k s → Listed k (startup_turn s u how)
unfolding startup_turn
startup-Listed s unstarted how k l = l
startup-Listed s (building zero) how k l = ground arith
startup-Listed s (building (suc left)) how k l = ground arith
startup-Listed s (listening zero) how k l = ground (arith, is_added-append s.infra scanner k)
startup-Listed s (listening (suc left)) how k l =
    ground (arith, is_added-append s.infra accepting k)
startup-Listed s publishing how k l = ground arith
startup-Listed s draining how k l = ground arith
startup-Listed s done how k l = l

shutdown-Listed :
    (s : Server) (d : ShuttingDown) (expired : Bool) (k : ℕ)
    → Listed k s
    → Listed k (shutdown_turn s d expired)
unfolding shutdown_turn
shutdown-Listed s d expired k l = ground arith

notify-Listed :
    (s : Server) (id : ℕ) (reason : CloseReason) (k : ℕ)
    → Listed k s
    → Listed k (notify_actor_closed s id reason)
unfolding notify_actor_closed
notify-Listed s id reason k l = ground arith

closes-Listed :
    (s : Server) (reason : CloseReason) (id k : ℕ) → Listed k s → Listed k (close_as reason s id)
unfolding close_as
closes-Listed s reason id k l =
    let (starts, m) = try_start_closing s.state_manager id in
    let s' = record s { state_manager = m } in
    if-both (Listed k) starts _ s
      (λ _.
        removes-Listed _ id k
          (relabel _ _ _ k (notify-Listed s' id reason k (relabel s s.request_registry m k l))))
      (λ _. l)

turn-Listed : (s : Server) (t : Turn) (k : ℕ) → Listed k s → Listed k (take_turn s t)
unfolding take_turn serve stop call_shutdown drop_shutdown
turn-Listed s serves k l = ground arith
turn-Listed s stops k l = ground arith
turn-Listed s (starts_up how) k l = startup-Listed s s.startup how k l
turn-Listed s (works i a) k l = elim (Option-cases (get_elem? s.infra i)) [
  | inl e ↦ rw (e, take_turn) l
  | inr (task, e) ↦ rw (e, take_turn) (works-Listed s i task a k e l)
]
turn-Listed s (in_addition i what) k l = elim (Option-cases (get_elem? s.infra i)) [
  | inl e ↦ rw (e, take_turn) l
  | inr (task, e) ↦ rw (e, take_turn) (addition-Listed s i task what k e l)
]
turn-Listed s (in_session i what) k l = elim (Option-cases (get_elem? s.sessions i)) [
  | inl e ↦ rw (e, take_turn) l
  | inr (x, e) ↦ rw (e, take_turn) (session-Listed s i x what k e l)
]
turn-Listed s (supervises i) k l = elim (Option-cases (get_elem? s.sessions i)) [
  | inl e ↦ rw (e, take_turn) l
  | inr (x, e) ↦ rw (e, take_turn) (supervise-Listed s i x x.watch k e l)
]
turn-Listed s (removes id) k l = removes-Listed s id k l
turn-Listed s (closes reason id) k l = closes-Listed s reason id k l
turn-Listed s calls_shutdown k l = ground arith
turn-Listed s misses_lock k l = ground arith
turn-Listed s drops_shutdown k l = ground arith
turn-Listed s (shuts_down expired) k l = shutdown-Listed s s.shutdown expired k l

play-Listed : (s : Server) (ts : List Turn) (k : ℕ) → Listed k s → Listed k (play s ts)
unfolding play
play-Listed s [] k l = l
play-Listed s (t ∷ ts) k l = play-Listed (take_turn s t) ts k (turn-Listed s t k l)

new-Listed : (protocols most k : ℕ) → Listed k (with_max_connections (new_server protocols) most)
unfolding new_server with_max_connections get
new-Listed protocols most k = record { transports_ok = refl; handles_ok = refl; cancels_ok = refl }

-- In every state that a server with a cap can reach, in any interleaving of its tasks and its
-- callers, and for every session id: an id in the map of transports or in the map of actor handles
-- is that of a session that is tracked, or that a listener has just registered and is about to hand
-- to its supervisor; and an id in the map of cancel tokens is that of a tracked session. So nothing
-- of an ended session stays in the maps, whoever ended it.
pub maps_name_the_living :
    (protocols most : ℕ) (ts : List Turn) (k : ℕ)
    → let s = play (with_max_connections (new_server protocols) most) ts in
      (implies (is_some (get k s.transports) || is_some (get k s.session_handles)) (is_live s k)
        ≡ true)
      × (implies (is_some (get k s.session_cancels)) (tracks s.sessions k) ≡ true)
maps_name_the_living protocols most ts k =
    let s = play (with_max_connections (new_server protocols) most) ts in
    let l =
      play-Listed (with_max_connections (new_server protocols) most) ts k
        (new-Listed protocols most k) in
    (ground (arith, l.transports_ok, l.handles_ok), l.cancels_ok)
