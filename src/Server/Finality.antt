-- ===== src/Server/Finality.antt =====
-- transport/transport_server.rs: what a clean shutdown proves.
use msgtrans.Prelude.{
  ℕ, ◌≤◌, ◌≡◌, refl, sym, ◌∙◌, List, [], ◌∷◌, none, inl, inr, Bool, true, ◌&&◌, arith, Option-cases,
  if-both, get_elem?, length,
}
use msgtrans.Prelude.Map.{nat_eq, remove}
use msgtrans.Errors.{CloseReason}
use msgtrans.Server.{
  stopped, is_phase, Infra, finished, Startup, ShuttingDown, reporting, Server, new_server,
  with_max_connections, remove_session, notify_actor_closed, close_as, unstarted, building,
  listening, publishing, draining, done,
}
use msgtrans.ConnectionState.{Manager, try_start_closing}
use msgtrans.Server.Listen.{infra_turn}
use msgtrans.Server.Serve.{Build, serve, startup_turn, all_finished}
use msgtrans.Server.Shutdown.{
  stop, live_session_tasks, registering_count, report, shutdown_turn, drop_shutdown,
}
use msgtrans.Server.Turns.{
  Turn, serves, stops, starts_up, works, in_addition, in_session, supervises, removes, closes,
  calls_shutdown, misses_lock, drops_shutdown, shuts_down, addition_turn, call_shutdown, take_turn,
  play,
}
use msgtrans.Server.Capacity.{held, owned, play-owned, sessions_within_cap}
use msgtrans.Server.Order.{is_over, Ordered, finished_stays, play-Ordered, new-Ordered}

-- Nothing of the server is left, and nothing can start it again.
record Quiet (s : Server) : Type 0 where
  phase_ok : is_phase s.phase stopped ≡ true
  startup_ok : is_over s.startup ≡ true
  infra_ok : all_finished s.infra ≡ true
  sessions_ok : s.sessions ≡ []
  transports_ok : s.transports ≡ []

removes-Quiet : (s : Server) (id : ℕ) → Quiet s → Quiet (remove_session s id)
unfolding remove_session remove
removes-Quiet s id q = record {
  phase_ok = q.phase_ok;
  startup_ok = q.startup_ok;
  infra_ok = q.infra_ok;
  sessions_ok = q.sessions_ok;
  transports_ok = rw q.transports_ok refl;
}

relabel : (s : Server) (m : Manager) → Quiet s → Quiet (record s { state_manager = m })
relabel s m q = record {
  phase_ok = q.phase_ok;
  startup_ok = q.startup_ok;
  infra_ok = q.infra_ok;
  sessions_ok = q.sessions_ok;
  transports_ok = q.transports_ok;
}

notify-Quiet :
    (s : Server) (id : ℕ) (reason : CloseReason) → Quiet s → Quiet (notify_actor_closed s id reason)
unfolding notify_actor_closed
notify-Quiet s id reason q = ground arith

closes-Quiet : (s : Server) (reason : CloseReason) (id : ℕ) → Quiet s → Quiet (close_as reason s id)
unfolding close_as
closes-Quiet s reason id q =
    let (starts, m) = try_start_closing s.state_manager id in
    if-both Quiet starts _ s
      (λ _.
        removes-Quiet _ id
          (relabel _ _ (notify-Quiet (record s { state_manager = m }) id reason (relabel s m q))))
      (λ _. q)

startup-Quiet :
    (s : Server) (u : Startup) (how : Build)
    → is_over u ≡ true
    → Quiet s
    → Quiet (startup_turn s u how)
unfolding startup_turn
startup-Quiet s unstarted how e q = q
startup-Quiet s done how e q = q
startup-Quiet s (building n) how e q = absurd (cc)
startup-Quiet s (listening n) how e q = absurd (cc)
startup-Quiet s publishing how e q = absurd (cc)
startup-Quiet s draining how e q = absurd (cc)

shutdown-Quiet :
    (s : Server) (d : ShuttingDown) (expired : Bool) → Quiet s → Quiet (shutdown_turn s d expired)
unfolding shutdown_turn
shutdown-Quiet s d expired q = ground arith

turn-Quiet : (s : Server) (t : Turn) → Quiet s → Quiet (take_turn s t)
unfolding take_turn serve stop call_shutdown drop_shutdown
turn-Quiet s serves q = ground arith
turn-Quiet s stops q = ground arith
turn-Quiet s (starts_up how) q = startup-Quiet s s.startup how q.startup_ok q
turn-Quiet s (works i a) q = elim (Option-cases (get_elem? s.infra i)) [
  | inl e ↦ rw (e, take_turn) q
  | inr (task, e) ↦
      rw (e, take_turn) (rw (finished_stays s.infra i task e q.infra_ok) (unfold infra_turn in q))
]
turn-Quiet s (in_addition i what) q = elim (Option-cases (get_elem? s.infra i)) [
  | inl e ↦ rw (e, take_turn) q
  | inr (task, e) ↦
      rw (e, take_turn)
        (rw (finished_stays s.infra i task e q.infra_ok) (unfold addition_turn in q))
]
turn-Quiet s (in_session i what) q =
    let e : get_elem? s.sessions i ≡ none = rw q.sessions_ok refl in rw (e, take_turn) q
turn-Quiet s (supervises i) q =
    let e : get_elem? s.sessions i ≡ none = rw q.sessions_ok refl in rw (e, take_turn) q
turn-Quiet s (removes id) q = removes-Quiet s id q
turn-Quiet s (closes reason id) q = closes-Quiet s reason id q
turn-Quiet s calls_shutdown q = ground arith
turn-Quiet s misses_lock q = ground arith
turn-Quiet s drops_shutdown q = ground arith
turn-Quiet s (shuts_down expired) q = shutdown-Quiet s s.shutdown expired q

play-Quiet : (s : Server) (ts : List Turn) → Quiet s → Quiet (play s ts)
unfolding play
play-Quiet s [] q = q
play-Quiet s (t ∷ ts) q = play-Quiet (take_turn s t) ts (turn-Quiet s t q)

length-nil {ℓ} : {A : Type ℓ} (xs : List A) → length xs ≤ 0 → xs ≡ []
length-nil [] h = refl
length-nil (x ∷ xs) h = absurd (omega arith)

finished-held :
    (tasks : List Infra)
    → all_finished tasks ≡ true
    → (held tasks ≡ 0) × (registering_count tasks ≡ 0)
finished-held [] h = (refl, refl)
finished-held (finished ∷ ts) h =
    let (a, b) = finished-held ts h in (omega (arith, a), omega (arith, b))
finished-held (task ∷ ts) h = absurd (cc)

report-Quiet : (s : Server) → Ordered s → s.shutdown ≡ reporting → (report s).clean ≡ true → Quiet s
unfolding report
report-Quiet s o at clean =
    let live : live_session_tasks s ≤ 0 = ground arith in
    let maps : length s.transports ≤ 0 = ground arith in
    let seen : s.infra_stopped ≡ true = ground arith in
    let phase_ok : is_phase s.phase stopped ≡ true = ground (arith, o.seen_ok) in
    let over : (is_over s.startup && all_finished s.infra) ≡ true = ground (arith, o.stopped_ok) in
    record {
      phase_ok = phase_ok;
      startup_ok = ground (arith, over);
      infra_ok = ground (arith, over);
      sessions_ok = length-nil s.sessions (omega (arith, live));
      transports_ok = length-nil s.transports maps;
    }

Quiet-empty :
    (s : Server)
    → Quiet s
    → (live_session_tasks s ≡ 0) × (s.transports ≡ []) × (owned s ≡ s.permits)
Quiet-empty s q =
    let (h, r) = finished-held s.infra q.infra_ok in
    let n : length s.sessions ≡ 0 = rw q.sessions_ok refl in
    (omega (arith, n, r), q.transports_ok, omega (arith, n, h))

-- A server with a cap, run in any interleaving of its tasks and its callers, whose shutdown comes to
-- report that it is clean: at that moment and after any further turns, `serve` and new shutdowns
-- included, no session is tracked, no transport is registered, every listener and the scanner have
-- ended, the phase is stopped, and every permit is back.
pub clean_is_final :
    (protocols most : ℕ) (ts us : List Turn)
    → let s = play (with_max_connections (new_server protocols) most) ts in
      let later = play s us in
      s.shutdown ≡ reporting
      → (report s).clean ≡ true
      → (live_session_tasks later ≡ 0)
        × (later.transports ≡ [])
        × (all_finished later.infra ≡ true)
        × (is_phase later.phase stopped ≡ true)
        × (later.permits ≡ most)
clean_is_final protocols most ts us at clean =
    let start = with_max_connections (new_server protocols) most in
    let s = play start ts in
    let later = play s us in
    let q =
      play-Quiet s us
        (report-Quiet s (play-Ordered start ts (new-Ordered protocols most)) at clean) in
    let (live, maps, mine) = Quiet-empty later q in
    (
      live,
      maps,
      q.infra_ok,
      q.phase_ok,
      sym mine ∙ play-owned s us ∙ (sessions_within_cap protocols most ts).0,
    )
