-- ===== src/ConnectionState.antt =====
-- crates/msgtrans/src/transport/connection_state.rs: who closes a connection. A call is one step:
-- each takes the lock of one session's state.
pub mod Closers
mod Tests
use msgtrans.Prelude.{ℕ, List, [], ◌∷◌, Option, none, some, Bool, true, false, ◌==◌}
use msgtrans.Prelude.Map.{nat_eq, Map, get, insert, remove}

pub data ConnectionState : Type 0 where
  connected closing closed : ConnectionState

-- `ConnectionStateManager`.
abbrev pub Manager : Type 0
Manager = Map ℕ ConnectionState

abbrev pub new_manager : Manager
new_manager = []

unfoldable pub add_connection : Manager → ℕ → Manager
add_connection m sid = insert sid connected m

unfoldable pub try_start_closing : Manager → ℕ → Bool × Manager
try_start_closing m sid = elim (get sid m) [
  | none ↦ (false, m)
  | some connected ↦ (true, insert sid closing m)
  | some closing ↦ (false, m)
  | some closed ↦ (false, m)
]

unfoldable pub mark_closed : Manager → ℕ → Manager
mark_closed m sid = elim (get sid m) [ none ↦ m | some s ↦ insert sid closed m ]

unfoldable pub should_ignore_messages : Manager → ℕ → Bool
should_ignore_messages m sid = elim (get sid m) [
  | none ↦ true
  | some connected ↦ false
  | some closing ↦ true
  | some closed ↦ true
]

unfoldable pub get_state : Manager → ℕ → Option ConnectionState
get_state m sid = get sid m

unfoldable pub remove_connection : Manager → ℕ → Manager
remove_connection m sid = remove sid m

pub data Call : Type 0 where
  adds starts_closing marks_closed removes : (sid : ℕ) → Call

unfoldable pub step : Manager → Call → Manager
step m (adds sid) = add_connection m sid
step m (starts_closing sid) = (try_start_closing m sid).1
step m (marks_closed sid) = mark_closed m sid
step m (removes sid) = remove_connection m sid

unfoldable pub run : Manager → List Call → Manager
run m [] = m
run m (c ∷ cs) = run (step m c) cs

-- The call adds this session.
abbrev pub is_adding : ℕ → Call → Bool
is_adding sid (adds j) = j == sid
is_adding sid _ = false
