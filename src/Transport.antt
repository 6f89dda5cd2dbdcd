-- ===== src/Transport.antt =====
-- transport/transport.rs: the slot of the current connection and the ends of its generations. A
-- method is one step: it takes the slot's lock once.
use msgtrans.Prelude.{
  ℕ, ◌+◌, List, [], ◌∷◌, ◌++◌, Option, none, some, Bool, true, false, ◌==◌, ◌&&◌, if◌then◌else◌,
}
use msgtrans.Registry.{RequestRegistry, add64, new_with_timing}
use msgtrans.Registry.Register.{open_session}
use msgtrans.Registry.Close.{close_session_pending}
use msgtrans.ConnectionState.{
  Manager, new_manager, add_connection, try_start_closing, mark_closed, remove_connection,
}
pub mod Generations
pub mod Dispatch
mod Tests

-- A connection is a number.
pub record ConnectionSlot : Type 0 where
  pub session_id : ℕ
  pub connection : ℕ

pub record Transport : Type 0 where
  pub slot : Option ConnectionSlot
  pub state_manager : Manager
  pub request_registry : RequestRegistry
  pub connection_epoch : ℕ
  -- the calls of `Connection::close`, in order
  pub closed : List ℕ

unfoldable pub with_context : RequestRegistry → Transport
with_context r = record {
  slot = none;
  state_manager = new_manager;
  request_registry = r;
  connection_epoch = 0;
  closed = [];
}

-- The session id is the new epoch; a connection that is replaced is dropped.
unfoldable pub set_connection : Transport → ℕ → ℕ × Transport
set_connection t connection =
    let session_id = add64 t.connection_epoch 1 in
    (
      session_id,
      record t {
        slot = some (record { session_id = session_id; connection = connection });
        state_manager = add_connection t.state_manager session_id;
        request_registry = open_session t.request_registry session_id;
        connection_epoch = session_id;
      },
    )

abbrev pub current_session_id : Transport → Option ℕ
current_session_id t = elim t.slot [ none ↦ none | some s ↦ some s.session_id ]

abbrev pub is_of : Option ConnectionSlot → ℕ → Bool
is_of none session_id = false
is_of (some s) session_id = s.session_id == session_id

-- The slot is taken only if it still belongs to the session.
unfoldable pub take_slot : Transport → ℕ → Option ConnectionSlot × Transport
take_slot t session_id =
    if is_of t.slot session_id then (t.slot, record t { slot = none }) else (none, t)

-- How the graceful close of a connection turns out.
pub data GracefulClose : Type 0 where
  succeeds fails times_out : GracefulClose

-- The calls of `close`: a graceful close that fails or takes too long is followed by a forced one.
abbrev pub attempts : GracefulClose → Option ConnectionSlot → List ℕ
attempts how none = []
attempts succeeds (some s) = s.connection ∷ []
attempts fails (some s) = s.connection ∷ s.connection ∷ []
attempts times_out (some s) = s.connection ∷ s.connection ∷ []

abbrev pub force : Option ConnectionSlot → List ℕ
force none = []
force (some s) = s.connection ∷ []

-- The generation's state is closed and forgotten, whoever has the slot.
unfoldable pub mark_and_remove : Transport → ℕ → Transport
mark_and_remove t session_id = record t {
  state_manager = remove_connection (mark_closed t.state_manager session_id) session_id;
}

unfoldable pub retire_generation : Transport → ℕ → Transport
unfolding take_slot mark_and_remove
retire_generation t session_id = mark_and_remove (take_slot t session_id).1 session_id

-- What `close_session` and `force_close_session` share, once they may start closing.
unfoldable pub close_started : (Option ConnectionSlot → List ℕ) → Transport → ℕ → Transport
unfolding take_slot mark_and_remove
close_started calls t session_id =
    let drained = record t {
      request_registry = (close_session_pending t.request_registry session_id).1;
    } in
    let (taken, t') = take_slot drained session_id in
    mark_and_remove (record t' { closed = t'.closed ++ calls taken }) session_id

unfoldable pub close_with : (Option ConnectionSlot → List ℕ) → Transport → ℕ → Transport
unfolding close_started
close_with calls t session_id =
    let (starts, m) = try_start_closing t.state_manager session_id in
    if starts then close_started calls (record t { state_manager = m }) session_id else t

unfoldable pub close_session : GracefulClose → Transport → ℕ → Transport
unfolding close_with
close_session how t session_id = close_with (attempts how) t session_id

unfoldable pub force_close_session : Transport → ℕ → Transport
unfolding close_with
force_close_session t session_id = close_with force t session_id

unfoldable pub disconnect : GracefulClose → Transport → Transport
unfolding close_session
disconnect how t = elim (current_session_id t) [ none ↦ t | some sid ↦ close_session how t sid ]

-- The end of a connection's event pipe.
unfoldable pub teardown : Transport → ℕ → Transport
unfolding retire_generation
teardown t session_id =
    let t' = retire_generation t session_id in
    record t' { request_registry = (close_session_pending t'.request_registry session_id).1 }
