-- ===== src/Server/Order.antt =====
-- transport/transport_server.rs: how the phase, the startup task and the shutdown go together.
use msgtrans.Prelude.{
  implies, ℕ, zero, suc, ◌≡◌, refl, List, [], ◌∷◌, some, inl, inr, Bool, true, false, not, ◌&&◌,
  arith, Option-cases, Bool-cases, if-both, get_elem?,
}
use msgtrans.Errors.{CloseReason}
use msgtrans.Server.{
  idle, stopped, is_phase, Session, Infra, accepting, finished, Startup, unstarted, building,
  listening, publishing, draining, done, ShuttingDown, gate_closing, offering, cancelling,
  joining_sessions, marking_stopped, joining_stragglers, reporting, Server, new_server,
  with_max_connections, remove_session, notify_actor_closed, close_as,
}
use msgtrans.ConnectionState.{Manager, try_start_closing}
use msgtrans.Server.Listen.{Accepted, accept_turn, infra_turn}
use msgtrans.Server.Supervise.{Happening, tear_down, supervise}
use msgtrans.Server.Serve.{Build, serve, startup_turn, all_finished}
use msgtrans.Server.Shutdown.{stop, shutdown_turn, drop_shutdown}
use msgtrans.Server.Turns.{
  Turn, serves, stops, starts_up, works, in_addition, in_session, supervises, removes, closes,
  calls_shutdown, misses_lock, drops_shutdown, shuts_down, addition_turn, session_turn,
  call_shutdown, take_turn, play,
}

abbrev is_unstarted : Startup → Bool
is_unstarted unstarted = true
is_unstarted _ = false

-- The startup task has nothing left to do.
abbrev pub is_over : Startup → Bool
is_over unstarted = true
is_over done = true
is_over _ = false

-- The shutdown has left the phase behind, and not yet marked a server that never served.
abbrev before_mark : ShuttingDown → Bool
before_mark gate_closing = true
before_mark offering = true
before_mark cancelling = true
before_mark joining_sessions = true
before_mark marking_stopped = true
before_mark _ = false

-- The shutdown has seen whether the infrastructure stopped.
abbrev after_infra : ShuttingDown → Bool
after_infra joining_stragglers = true
after_infra reporting = true
after_infra _ = false

abbrev is_nil : List Infra → Bool
is_nil [] = true
is_nil (t ∷ ts) = false

-- The facts that no turn breaks.
pub record Ordered (s : Server) : Type 0 where
  pub idle_ok : implies (is_phase s.phase idle) (is_unstarted s.startup) ≡ true
  pub empty_ok : implies (is_unstarted s.startup) (is_nil s.infra) ≡ true
  pub stopped_ok :
      implies (is_phase s.phase stopped) (is_over s.startup && all_finished s.infra) ≡ true
  pub mark_ok :
      implies
        (s.never_served && before_mark s.shutdown)
        (is_unstarted s.startup && not (is_phase s.phase idle))
      ≡ true
  pub seen_ok :
      implies (s.infra_stopped && after_infra s.shutdown) (is_phase s.phase stopped) ≡ true

-- Whether a turn leaves alone what those facts read, the infrastructure's tasks apart.
pub record Same (s t : Server) : Type 0 where
  pub phase_same : t.phase ≡ s.phase
  pub startup_same : t.startup ≡ s.startup
  pub shutdown_same : t.shutdown ≡ s.shutdown
  pub never_same : t.never_served ≡ s.never_served
  pub seen_same : t.infra_stopped ≡ s.infra_stopped

pub finished_stays :
    (tasks : List Infra) (i : ℕ) (task : Infra)
    → get_elem? tasks i ≡ some task
    → all_finished tasks ≡ true
    → task ≡ finished
finished_stays [] i task h a = cc
finished_stays (t ∷ ts) zero task h a = ground arith
finished_stays (t ∷ ts) (suc i) task h a = finished_stays ts i task h (ground arith)

not_nil :
    (tasks : List Infra) (i : ℕ) (task : Infra)
    → get_elem? tasks i ≡ some task
    → is_nil tasks ≡ false
not_nil [] i task h = cc
not_nil (t ∷ ts) i task h = refl

-- A task that is not finished takes a turn: the server is neither unstarted nor stopped.
Same-Ordered :
    (s t : Server) (i : ℕ) (task : Infra)
    → get_elem? s.infra i ≡ some task
    → all_finished s.infra ≡ false
    → Same s t
    → Ordered s
    → Ordered t
Same-Ordered s t i task g a same o =
    let n = not_nil s.infra i task g in
    ground (
      arith, o.idle_ok, o.empty_ok, o.stopped_ok, o.mark_ok, o.seen_ok, same.phase_same,
      same.startup_same, same.shutdown_same, same.never_same, same.seen_same,
    )

accept-Same : (s : Server) (i : ℕ) (a : Accepted) → Same s (accept_turn s i a)
unfolding accept_turn
accept-Same s i a = ground arith

infra-Same : (s : Server) (i : ℕ) (task : Infra) (a : Accepted) → Same s (infra_turn s i task a)
unfolding infra_turn
infra-Same s i accepting a = accept-Same s i a
infra-Same s i task a = ground arith

works-Ordered :
    (s : Server) (i : ℕ) (task : Infra) (a : Accepted)
    → get_elem? s.infra i ≡ some task
    → Ordered s
    → Ordered (infra_turn s i task a)
works-Ordered s i task a g o = elim (Bool-cases (all_finished s.infra)) [
  | inr some_left ↦
      Same-Ordered s (infra_turn s i task a) i task g some_left (infra-Same s i task a) o
  | inl over ↦ rw (finished_stays s.infra i task g over) (unfold infra_turn in o)
]

tear_down-Same :
    (s : Server) (x : Session) (what : Happening)
    → Same s (tear_down s x what) × ((tear_down s x what).infra ≡ s.infra)
unfolding tear_down
tear_down-Same s x what = ground arith

addition-Same :
    (s : Server) (i : ℕ) (task : Infra) (what : Happening) → Same s (addition_turn s i task what)
unfolding addition_turn
addition-Same s i task what = ground arith

addition-Ordered :
    (s : Server) (i : ℕ) (task : Infra) (what : Happening)
    → get_elem? s.infra i ≡ some task
    → Ordered s
    → Ordered (addition_turn s i task what)
addition-Ordered s i task what g o = elim (Bool-cases (all_finished s.infra)) [
  | inr some_left ↦
      Same-Ordered s (addition_turn s i task what) i task g some_left (addition-Same s i task what)
        o
  | inl over ↦ rw (finished_stays s.infra i task g over) (unfold addition_turn in o)
]

session-Ordered :
    (s : Server) (i : ℕ) (x : Session) (what : Happening)
    → Ordered s
    → Ordered (session_turn s i x what)
unfolding session_turn
session-Ordered s i x what o = ground (arith, tear_down-Same s x what)

supervise-Ordered :
    (s : Server) (i : ℕ) (x : Session) → Ordered s → Ordered (supervise s i x x.watch)
unfolding supervise
supervise-Ordered s i x o = ground arith

startup-Ordered : (s : Server) (how : Build) → Ordered s → Ordered (startup_turn s s.startup how)
unfolding startup_turn
startup-Ordered s how o = at_stage s.startup refl
  where
    at_stage : (u : Startup) → s.startup ≡ u → Ordered (startup_turn s u how)
    at_stage unstarted e = o
    at_stage (building zero) e = ground arith
    at_stage (building (suc left)) e = ground arith
    at_stage (listening zero) e = ground arith
    at_stage (listening (suc left)) e = ground arith
    at_stage publishing e = ground arith
    at_stage draining e = ground arith
    at_stage done e = o

shutdown-Ordered :
    (s : Server) (expired : Bool) → Ordered s → Ordered (shutdown_turn s s.shutdown expired)
unfolding shutdown_turn
shutdown-Ordered s expired o = ground arith

-- The state manager takes no part.
relabel : (s : Server) (m : Manager) → Ordered s → Ordered (record s { state_manager = m })
relabel s m o = record {
  idle_ok = o.idle_ok;
  empty_ok = o.empty_ok;
  stopped_ok = o.stopped_ok;
  mark_ok = o.mark_ok;
  seen_ok = o.seen_ok;
}

removes-Ordered : (s : Server) (id : ℕ) → Ordered s → Ordered (remove_session s id)
unfolding remove_session
removes-Ordered s id o = record {
  idle_ok = o.idle_ok;
  empty_ok = o.empty_ok;
  stopped_ok = o.stopped_ok;
  mark_ok = o.mark_ok;
  seen_ok = o.seen_ok;
}

notify-Ordered :
    (s : Server) (id : ℕ) (reason : CloseReason)
    → Ordered s
    → Ordered (notify_actor_closed s id reason)
unfolding notify_actor_closed
notify-Ordered s id reason o = ground arith

closes-Ordered :
    (s : Server) (reason : CloseReason) (id : ℕ) → Ordered s → Ordered (close_as reason s id)
unfolding close_as
closes-Ordered s reason id o =
    let (starts, m) = try_start_closing s.state_manager id in
    if-both Ordered starts _ s
      (λ _.
        removes-Ordered _ id
          (relabel _ _ (notify-Ordered (record s { state_manager = m }) id reason (relabel s m o))))
      (λ _. o)

turn-Ordered : (s : Server) (t : Turn) → Ordered s → Ordered (take_turn s t)
unfolding take_turn serve stop call_shutdown drop_shutdown
turn-Ordered s serves o = ground arith
turn-Ordered s stops o = ground arith
turn-Ordered s (starts_up how) o = startup-Ordered s how o
turn-Ordered s (works i a) o = elim (Option-cases (get_elem? s.infra i)) [
  | inl e ↦ rw (e, take_turn) o
  | inr (task, e) ↦ rw (e, take_turn) (works-Ordered s i task a e o)
]
turn-Ordered s (in_addition i what) o = elim (Option-cases (get_elem? s.infra i)) [
  | inl e ↦ rw (e, take_turn) o
  | inr (task, e) ↦ rw (e, take_turn) (addition-Ordered s i task what e o)
]
turn-Ordered s (in_session i what) o = elim (Option-cases (get_elem? s.sessions i)) [
  | inl e ↦ rw (e, take_turn) o
  | inr (x, e) ↦ rw (e, take_turn) (session-Ordered s i x what o)
]
turn-Ordered s (supervises i) o = elim (Option-cases (get_elem? s.sessions i)) [
  | inl e ↦ rw (e, take_turn) o
  | inr (x, e) ↦ rw (e, take_turn) (supervise-Ordered s i x o)
]
turn-Ordered s (removes id) o = removes-Ordered s id o
turn-Ordered s (closes reason id) o = closes-Ordered s reason id o
turn-Ordered s calls_shutdown o = ground arith
turn-Ordered s misses_lock o = ground arith
turn-Ordered s drops_shutdown o = ground arith
turn-Ordered s (shuts_down expired) o = shutdown-Ordered s expired o

pub play-Ordered : (s : Server) (ts : List Turn) → Ordered s → Ordered (play s ts)
unfolding play
play-Ordered s [] o = o
play-Ordered s (t ∷ ts) o = play-Ordered (take_turn s t) ts (turn-Ordered s t o)

pub new-Ordered : (protocols most : ℕ) → Ordered (with_max_connections (new_server protocols) most)
unfolding new_server with_max_connections
new-Ordered protocols most = record {
  idle_ok = refl;
  empty_ok = refl;
  stopped_ok = refl;
  mark_ok = refl;
  seen_ok = refl;
}
