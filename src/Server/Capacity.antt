-- ===== src/Server/Capacity.antt =====
-- transport/transport_server.rs: the permits of the connection cap.
use msgtrans.Prelude.{
  ℕ, zero, suc, ◌+◌, ◌≤◌, ◌≡◌, refl, ◌∙◌, List, [], ◌∷◌, ◌++◌, some, inl, inr, Bool, arith,
  Option-cases, get_elem?, set, length, length-set, length-erase, length-append, length-map,
}
use msgtrans.Server.{
  Session, Watch, selects, awaits_other, Infra, scanner, accepting, finished, gating, inserting,
  tracking, registering, rechecking, Startup, unstarted, building, listening, publishing, draining,
  done, ShuttingDown, Server, new_server, with_max_connections, remove_session, close_as,
}
use msgtrans.Server.Listen.{
  Accepted, accepts, fails, sees_cancel, panics, cancel_if, accept_turn, infra_turn,
}
use msgtrans.Server.Supervise.{
  Happening, actor_ends, actor_panics, pump_ends, pump_panics, happens, observe, tear_down,
  supervise,
}
use msgtrans.Server.Serve.{Build, serve, startup_turn}
use msgtrans.Server.Shutdown.{
  stop, live_session_tasks, registering_count, shutdown_turn, drop_shutdown,
}
use msgtrans.Server.Turns.{
  Turn, serves, stops, starts_up, works, in_addition, in_session, supervises, removes, closes,
  calls_shutdown, misses_lock, drops_shutdown, shuts_down, addition_turn, session_turn,
  call_shutdown, take_turn, play,
}

-- The permits that the listeners hold for the sessions that they add.
abbrev pub holding : Infra → ℕ
holding (gating id piped) = 1
holding (inserting id piped) = 1
holding (tracking x) = 1
holding (registering x) = 1
holding _ = 0

abbrev pub held : List Infra → ℕ
held [] = 0
held (task ∷ tasks) = holding task + held tasks

held-set :
    (tasks : List Infra) (i : ℕ) (old new : Infra)
    → get_elem? tasks i ≡ some old
    → held (set tasks i new) + holding old ≡ held tasks + holding new
held-set [] i old new h = cc
held-set (t ∷ ts) zero old new h = let e : t ≡ old = cc in rw e (omega arith)
held-set (t ∷ ts) (suc i) old new h = omega (arith, held-set ts i old new h)

held-append : (tasks : List Infra) (t : Infra) → held (tasks ++ t ∷ []) ≡ held tasks + holding t
held-append [] t = omega arith
held-append (x ∷ xs) t = omega (arith, held-append xs t)

registering_count-le-held : (tasks : List Infra) → registering_count tasks ≤ held tasks
registering_count-le-held [] = omega arith
registering_count-le-held (registering x ∷ ts) = omega (arith, registering_count-le-held ts)
registering_count-le-held (scanner ∷ ts) = omega (arith, registering_count-le-held ts)
registering_count-le-held (accepting ∷ ts) = omega (arith, registering_count-le-held ts)
registering_count-le-held (finished ∷ ts) = omega (arith, registering_count-le-held ts)
registering_count-le-held (gating i p ∷ ts) = omega (arith, registering_count-le-held ts)
registering_count-le-held (inserting i p ∷ ts) = omega (arith, registering_count-le-held ts)
registering_count-le-held (tracking x ∷ ts) = omega (arith, registering_count-le-held ts)
registering_count-le-held (rechecking i ∷ ts) = omega (arith, registering_count-le-held ts)

-- The permits that are free, and those that a session has, formed or being formed.
abbrev pub owned : Server → ℕ
owned s = s.permits + held s.infra + length s.sessions

accept-owned :
    (s : Server) (i : ℕ) (a : Accepted)
    → get_elem? s.infra i ≡ some accepting
    → owned (accept_turn s i a) ≡ owned s
unfolding accept_turn
accept-owned s i (accepts piped) h =
    ground (arith, held-set s.infra i accepting (gating s.session_id_generator piped) h)
accept-owned s i fails h = ground (arith, held-set s.infra i accepting finished h)
accept-owned s i sees_cancel h = ground (arith, held-set s.infra i accepting finished h)
accept-owned s i panics h = ground (arith, held-set s.infra i accepting finished h)

works-owned :
    (s : Server) (i : ℕ) (task : Infra) (a : Accepted)
    → get_elem? s.infra i ≡ some task
    → owned (infra_turn s i task a) ≡ owned s
unfolding infra_turn
works-owned s i scanner panics h = ground (arith, held-set s.infra i scanner finished h)
works-owned s i scanner (accepts p) h = ground (arith, held-set s.infra i scanner finished h)
works-owned s i scanner fails h = ground (arith, held-set s.infra i scanner finished h)
works-owned s i scanner sees_cancel h = ground (arith, held-set s.infra i scanner finished h)
works-owned s i accepting a h = accept-owned s i a h
works-owned s i finished a h = refl
works-owned s i (gating id piped) a h = ground (
  arith,
  held-set s.infra i (gating id piped) (inserting id piped) h,
  held-set s.infra i (gating id piped) accepting h,
)
works-owned s i (inserting id piped) a h =
    omega (arith, held-set s.infra i (inserting id piped) (tracking _) h)
works-owned s i (tracking x) a h = omega (arith, held-set s.infra i (tracking x) (registering x) h)
works-owned s i (registering x) a h = omega (
  arith,
  held-set s.infra i (registering x) (rechecking x.id) h,
  length-append s.sessions (x ∷ []),
)
works-owned s i (rechecking id) a h =
    ground
      (arith, held-set s.infra i (rechecking id) accepting h, length-map (cancel_if id) s.sessions)

tear_down-owned :
    (s : Server) (x : Session) (what : Happening)
    → ((tear_down s x what).permits ≡ s.permits)
      × ((tear_down s x what).infra ≡ s.infra)
      × ((tear_down s x what).sessions ≡ s.sessions)
unfolding tear_down
tear_down-owned s x actor_ends = (refl, refl, refl)
tear_down-owned s x actor_panics = (refl, refl, refl)
tear_down-owned s x pump_ends = ground arith
tear_down-owned s x pump_panics = (refl, refl, refl)

addition-owned :
    (s : Server) (i : ℕ) (task : Infra) (what : Happening)
    → get_elem? s.infra i ≡ some task
    → owned (addition_turn s i task what) ≡ owned s
unfolding addition_turn
addition-owned s i (tracking x) what h =
    let (p, q, r) = tear_down-owned s x what in
    rw (p, q, r) (omega (arith, held-set s.infra i (tracking x) (tracking (happens x what)) h))
addition-owned s i (registering x) what h =
    let (p, q, r) = tear_down-owned s x what in
    rw (p, q, r)
      (omega (arith, held-set s.infra i (registering x) (registering (happens x what)) h))
addition-owned s i scanner what h = refl
addition-owned s i accepting what h = refl
addition-owned s i finished what h = refl
addition-owned s i (gating id piped) what h = refl
addition-owned s i (inserting id piped) what h = refl
addition-owned s i (rechecking id) what h = refl

session-owned :
    (s : Server) (i : ℕ) (x : Session) (what : Happening)
    → owned (session_turn s i x what) ≡ owned s
unfolding session_turn
session-owned s i x what =
    let (p, q, r) = tear_down-owned s x what in
    rw (p, q, r) (omega (arith, length-set s.sessions i (happens x what)))

supervise-owned :
    (s : Server) (i : ℕ) (x : Session)
    → get_elem? s.sessions i ≡ some x
    → owned (supervise s i x x.watch) ≡ owned s
unfolding supervise
supervise-owned s i x h = by_watch x.watch
  where
    by_watch : (w : Watch) → owned (supervise s i x w) ≡ owned s
    by_watch selects = ground (
      arith,
      length-set s.sessions i (observe x x.actor),
      length-set s.sessions i (observe x x.pump),
    )
    by_watch awaits_other = ground (arith, length-erase s.sessions i x h)

startup-owned : (s : Server) (at : Startup) (how : Build) → owned (startup_turn s at how) ≡ owned s
unfolding startup_turn
startup-owned s unstarted how = refl
startup-owned s (building zero) how = ground arith
startup-owned s (building (suc left)) how = ground arith
startup-owned s (listening zero) how = omega (arith, held-append s.infra scanner)
startup-owned s (listening (suc left)) how = omega (arith, held-append s.infra accepting)
startup-owned s publishing how = ground arith
startup-owned s draining how = ground arith
startup-owned s done how = refl

-- What a shutdown's stretches leave alone.
shutdown-owned :
    (s : Server) (at : ShuttingDown) (expired : Bool) → owned (shutdown_turn s at expired) ≡ owned s
unfolding shutdown_turn
shutdown-owned s at expired = ground arith

turn-owned : (s : Server) (t : Turn) → owned (take_turn s t) ≡ owned s
unfolding take_turn serve stop remove_session close_as call_shutdown drop_shutdown
turn-owned s serves = ground arith
turn-owned s stops = refl
turn-owned s (starts_up how) = startup-owned s s.startup how
turn-owned s (works i a) = elim (Option-cases (get_elem? s.infra i)) [
  | inl e ↦ rw (e, take_turn) refl
  | inr (task, e) ↦ rw (e, take_turn) (works-owned s i task a e)
]
turn-owned s (in_addition i what) = elim (Option-cases (get_elem? s.infra i)) [
  | inl e ↦ rw (e, take_turn) refl
  | inr (task, e) ↦ rw (e, take_turn) (addition-owned s i task what e)
]
turn-owned s (in_session i what) = elim (Option-cases (get_elem? s.sessions i)) [
  | inl e ↦ rw (e, take_turn) refl
  | inr (x, e) ↦ rw (e, take_turn) (session-owned s i x what)
]
turn-owned s (supervises i) = elim (Option-cases (get_elem? s.sessions i)) [
  | inl e ↦ rw (e, take_turn) refl
  | inr (x, e) ↦ rw (e, take_turn) (supervise-owned s i x e)
]
turn-owned s (removes id) = refl
turn-owned s (closes reason id) = ground arith
turn-owned s calls_shutdown = ground arith
turn-owned s misses_lock = refl
turn-owned s drops_shutdown = ground arith
turn-owned s (shuts_down expired) = shutdown-owned s s.shutdown expired

pub play-owned : (s : Server) (ts : List Turn) → owned (play s ts) ≡ owned s
unfolding play
play-owned s [] = refl
play-owned s (t ∷ ts) = play-owned (take_turn s t) ts ∙ turn-owned s t

-- A server that is built with a cap, whatever its listeners, its sessions' tasks, their supervisors,
-- `serve`, `stop`, the closes and the shutdowns do, in any interleaving: the permits that are free,
-- those that the listeners hold for sessions that they add, and those of the tracked sessions add up
-- to the cap; so the tracked sessions are never more than the cap, and none is lost.
pub sessions_within_cap :
    (protocols most : ℕ) (ts : List Turn)
    → let s = play (with_max_connections (new_server protocols) most) ts in
      (s.permits + held s.infra + length s.sessions ≡ most) × (live_session_tasks s ≤ most)
unfolding new_server with_max_connections
sessions_within_cap protocols most ts =
    let s = play (with_max_connections (new_server protocols) most) ts in
    let e : owned s ≡ most =
      play-owned (with_max_connections (new_server protocols) most) ts ∙ omega arith in
    (e, omega (arith, e, registering_count-le-held s.infra))
