-- ===== src/Transport/Generations.antt =====
-- transport/transport.rs: an end of one generation touches no other.
use msgtrans.Prelude.{
  ℕ, ◌≡◌, refl, sym, ap, ◌∙◌, List, [], ◌++◌, append-nil, Option, none, Bool, true, false, ◌==◌,
  ◌&&◌, if◌then◌else◌, Option-cases, Bool-cases, inl, inr, arith,
}
use msgtrans.Prelude.Map.{nat_eq, get, get-insert, get-remove}
use msgtrans.Registry.{RequestRegistry}
use msgtrans.Registry.Close.{close_session_pending}
use msgtrans.Registry.Closing.{close_session_pending_open}
use msgtrans.ConnectionState.{
  Manager, ConnectionState, try_start_closing, mark_closed, remove_connection,
}
use msgtrans.Transport.{
  ConnectionSlot, Transport, is_of, take_slot, GracefulClose, attempts, force, mark_and_remove,
  retire_generation, close_started, close_with, close_session, force_close_session, teardown,
}

-- The three ways in which a generation ends.
pub data Closer : Type 0 where
  gracefully : GracefulClose → Closer
  by_force : Closer
  by_peer : Closer

unfoldable pub close_by : Closer → Transport → ℕ → Transport
close_by (gracefully how) t sid = close_session how t sid
close_by by_force t sid = force_close_session t sid
close_by by_peer t sid = teardown t sid

-- Whether the closer goes on, and how often it closes the connection that it takes.
abbrev pub goes_on : Closer → Transport → ℕ → Bool
goes_on (gracefully how) t sid = (try_start_closing t.state_manager sid).0
goes_on by_force t sid = (try_start_closing t.state_manager sid).0
goes_on by_peer t sid = true

abbrev pub calls_of : Closer → Option ConnectionSlot → List ℕ
calls_of (gracefully how) s = attempts how s
calls_of by_force s = force s
calls_of by_peer s = []

pub get-close_session_pending :
    (r : RequestRegistry) (sid j : ℕ)
    → get j (close_session_pending r sid).1.sessions ≡ (if sid == j then none else get j r.sessions)
unfolding close_session_pending
get-close_session_pending r sid j = elim (Option-cases (get sid r.sessions)) [
  | inl n ↦ rw (n, close_session_pending) (ground (arith, n))
  | inr (rt, g) ↦ ap (get j) (close_session_pending_open r sid rt g).1 ∙ get-remove sid j r.sessions
]

get-mark_closed :
    (m : Manager) (sid j : ℕ)
    → get j (remove_connection (mark_closed m sid) sid) ≡ (if sid == j then none else get j m)
unfolding mark_closed remove_connection
get-mark_closed m sid j =
    get-remove sid j (mark_closed m sid) ∙ ground (arith, get-insert sid j ConnectionState.closed m)

get-try_start_closing :
    (m : Manager) (sid j : ℕ) → (sid == j) ≡ false → get j (try_start_closing m sid).1 ≡ get j m
unfolding try_start_closing
get-try_start_closing m sid j h = ground (arith, get-insert sid j ConnectionState.closing m)

-- What the end of a generation leaves: its own slot, sockets, state and requests, and nobody else's.
record Scoped (t : Transport) (sid : ℕ) (on : Bool) (calls : Option ConnectionSlot → List ℕ)
    (t' : Transport) : Type 0 where
  slot_ok : t'.slot ≡ (if on && is_of t.slot sid then none else t.slot)
  closed_ok : t'.closed ≡ t.closed ++ (if on && is_of t.slot sid then calls t.slot else [])
  epoch_ok : t'.connection_epoch ≡ t.connection_epoch
  manager_ok :
      (j : ℕ) → get j t'.state_manager ≡ (if on && (sid == j) then none else get j t.state_manager)
  registry_ok :
      (j : ℕ)
      → get j (t'.request_registry).sessions
        ≡ (if on && (sid == j) then none else get j (t.request_registry).sessions)

pub take_slot-Scoped :
    (t : Transport) (sid : ℕ)
    → ((take_slot t sid).1.slot ≡ (if is_of t.slot sid then none else t.slot))
      × ((take_slot t sid).0 ≡ (if is_of t.slot sid then t.slot else none))
      × ((take_slot t sid).1.closed ≡ t.closed)
      × ((take_slot t sid).1.connection_epoch ≡ t.connection_epoch)
      × ((take_slot t sid).1.state_manager ≡ t.state_manager)
      × ((take_slot t sid).1.request_registry ≡ t.request_registry)
unfolding take_slot
take_slot-Scoped t sid = ground arith

teardown-Scoped : (t : Transport) (sid : ℕ) → Scoped t sid true (λ s. []) (teardown t sid)
unfolding teardown retire_generation mark_and_remove
teardown-Scoped t sid =
    let (slot, taken, closed, epoch, manager, registry) = take_slot-Scoped t sid in
    record {
      slot_ok = slot;
      closed_ok = closed ∙ ground (arith, append-nil t.closed);
      epoch_ok = epoch;
      manager_ok = λ j. get-mark_closed (take_slot t sid).1.state_manager sid j ∙ rw manager refl;
      registry_ok = λ j.
          get-close_session_pending (take_slot t sid).1.request_registry sid j ∙ rw registry refl;
    }

calls_if :
    (calls : Option ConnectionSlot → List ℕ) (b : Bool) (s : Option ConnectionSlot)
    → calls none ≡ []
    → calls (if b then s else none) ≡ (if b then calls s else [])
calls_if calls true s n = refl
calls_if calls false s n = n

none_or :
    (b : Bool) (x y : Option ConnectionState)
    → (b ≡ false → x ≡ y)
    → (if b then none else x) ≡ (if b then none else y)
none_or true x y h = refl
none_or false x y h = h refl

close_started-Scoped :
    (t : Transport) (m : Manager) (sid : ℕ) (calls : Option ConnectionSlot → List ℕ)
    → calls none ≡ []
    → ((j : ℕ) → (sid == j) ≡ false → get j m ≡ get j t.state_manager)
    → Scoped t sid true calls (close_started calls (record t { state_manager = m }) sid)
unfolding close_started mark_and_remove
close_started-Scoped t m sid calls n same =
    let drained : Transport = record t {
      state_manager = m;
      request_registry = (close_session_pending t.request_registry sid).1;
    } in
    let (slot, taken, closed, epoch, manager, registry) = take_slot-Scoped drained sid in
    record {
      slot_ok = slot;
      closed_ok =
          ap (λ x. x ++ calls (take_slot drained sid).0) closed
          ∙ ap (λ x. t.closed ++ calls x) taken
          ∙ ap (λ x. t.closed ++ x) (calls_if calls (is_of t.slot sid) t.slot n);
      epoch_ok = epoch;
      manager_ok = λ j.
          get-mark_closed (take_slot drained sid).1.state_manager sid j
          ∙ none_or (sid == j) _ _ (λ f. ap (get j) manager ∙ same j f);
      registry_ok = λ j.
          ap (λ r. get j r.sessions) registry ∙ get-close_session_pending t.request_registry sid j;
    }

unstarted-Scoped :
    (t : Transport) (sid : ℕ) (calls : Option ConnectionSlot → List ℕ) → Scoped t sid false calls t
unstarted-Scoped t sid calls = record {
  slot_ok = refl;
  closed_ok = sym (append-nil t.closed);
  epoch_ok = refl;
  manager_ok = λ j. refl;
  registry_ok = λ j. refl;
}

close_with-Scoped :
    (t : Transport) (sid : ℕ) (calls : Option ConnectionSlot → List ℕ)
    → calls none ≡ []
    → Scoped t sid (try_start_closing t.state_manager sid).0 calls (close_with calls t sid)
unfolding close_with
close_with-Scoped t sid calls n = by_start (try_start_closing t.state_manager sid).0
  where
    m : Manager
    m = (try_start_closing t.state_manager sid).1

    by_start :
        (b : Bool)
        → Scoped t sid b calls
            (if b then close_started calls (record t { state_manager = m }) sid else t)
    by_start true = close_started-Scoped t m sid calls n (get-try_start_closing t.state_manager sid)
    by_start false = unstarted-Scoped t sid calls

close_by-Scoped :
    (k : Closer) (t : Transport) (sid : ℕ)
    → Scoped t sid (goes_on k t sid) (calls_of k) (close_by k t sid)
unfolding close_by close_session force_close_session
close_by-Scoped (gracefully how) t sid = close_with-Scoped t sid (attempts how) refl
close_by-Scoped by_force t sid = close_with-Scoped t sid force refl
close_by-Scoped by_peer t sid = teardown-Scoped t sid

-- A closer that does not go on leaves the transport as it is.
close_with-idle :
    (t : Transport) (sid : ℕ) (calls : Option ConnectionSlot → List ℕ)
    → (if (try_start_closing t.state_manager sid).0 then t else close_with calls t sid) ≡ t
unfolding close_with
close_with-idle t sid calls = elim (Bool-cases (try_start_closing t.state_manager sid).0) [
  | inl on ↦ rw on refl
  | inr off ↦ rw (close_with, off) refl
]

close_by-idle :
    (k : Closer) (t : Transport) (sid : ℕ) → (if goes_on k t sid then t else close_by k t sid) ≡ t
unfolding close_by close_session force_close_session
close_by-idle (gracefully how) t sid = close_with-idle t sid (attempts how)
close_by-idle by_force t sid = close_with-idle t sid force
close_by-idle by_peer t sid = refl

-- The registry after a closer is that of one call of `close_session_pending`, if it goes on.
close_with-registry :
    (t : Transport) (sid : ℕ) (calls : Option ConnectionSlot → List ℕ)
    → (close_with calls t sid).request_registry ≡ (
        if (try_start_closing t.state_manager sid).0
        then (close_session_pending t.request_registry sid).1
        else t.request_registry)
unfolding close_with close_started mark_and_remove
close_with-registry t sid calls =
    let (slot, taken, closed, epoch, manager, registry) =
      take_slot-Scoped
        (record t {
          state_manager = (try_start_closing t.state_manager sid).1;
          request_registry = (close_session_pending t.request_registry sid).1;
        })
        sid in
    elim (Bool-cases (try_start_closing t.state_manager sid).0) [
      | inl on ↦ rw (close_with, on) registry
      | inr off ↦ rw (close_with, off) refl
    ]

close_by-registry :
    (k : Closer) (t : Transport) (sid : ℕ)
    → (close_by k t sid).request_registry ≡ (
        if goes_on k t sid
        then (close_session_pending t.request_registry sid).1
        else t.request_registry)
unfolding close_by close_session force_close_session teardown retire_generation mark_and_remove
close_by-registry (gracefully how) t sid = close_with-registry t sid (attempts how)
close_by-registry by_force t sid = close_with-registry t sid force
close_by-registry by_peer t sid =
    let (slot, taken, closed, epoch, manager, registry) = take_slot-Scoped t sid in
    ap (λ r. (close_session_pending r sid).1) registry

-- The end of one generation, by a graceful close, however it turns out, a forced one, or the end of
-- its pipe: when it goes on, the session is gone from the state manager and from the registry's
-- sessions, and every other session stands as it did in both; the registry is the one that a call
-- of `close_session_pending` leaves; the slot is emptied, and its
-- connection closed as the closer does, exactly when it still belongs to that session. So a late
-- end of an old generation neither empties the slot of the one that replaced it nor closes its
-- connection. When it does not go on, because someone else closes the session, the transport is what
-- it was, its registry included.
pub close_by_own :
    (k : Closer) (t : Transport) (sid j : ℕ)
    → let t' = close_by k t sid in
      let on = goes_on k t sid in
      (t'.slot ≡ (if on && is_of t.slot sid then none else t.slot))
      × (t'.closed ≡ t.closed ++ (if on && is_of t.slot sid then calls_of k t.slot else []))
      × (t'.connection_epoch ≡ t.connection_epoch)
      × (get j t'.state_manager ≡ (if on && (sid == j) then none else get j t.state_manager))
      × (get j (t'.request_registry).sessions
          ≡ (if on && (sid == j) then none else get j (t.request_registry).sessions))
      × (t'.request_registry
          ≡ (if on then (close_session_pending t.request_registry sid).1 else t.request_registry))
      × ((if on then t else t') ≡ t)
close_by_own k t sid j =
    let s = close_by-Scoped k t sid in
    (
      s.slot_ok,
      s.closed_ok,
      s.epoch_ok,
      s.manager_ok j,
      s.registry_ok j,
      close_by-registry k t sid,
      close_by-idle k t sid,
    )
