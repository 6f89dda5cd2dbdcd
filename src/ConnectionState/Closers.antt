-- ===== src/ConnectionState/Closers.antt =====
-- connection_state.rs: one closer at most.
use msgtrans.Prelude.{
  ℕ, ◌≡◌, ap, ◌∙◌, List, [], ◌∷◌, Option, some, Bool, true, false, not, All, arith,
}
use msgtrans.Prelude.Map.{nat_eq, get, get-insert, get-remove}
use msgtrans.ConnectionState.{
  ConnectionState, connected, closing, closed, Manager, add_connection, try_start_closing,
  mark_closed, should_ignore_messages, remove_connection, Call, adds, starts_closing, marks_closed,
  removes, step, run, is_adding,
}

-- The session is known and connected.
abbrev is_connected : Option ConnectionState → Bool
is_connected (some connected) = true
is_connected _ = false

try_start_closing_connected :
    (m : Manager) (sid : ℕ) → (try_start_closing m sid).0 ≡ is_connected (get sid m)
unfolding try_start_closing
try_start_closing_connected m sid = ground arith

should_ignore_connected :
    (m : Manager) (sid : ℕ) → should_ignore_messages m sid ≡ not (is_connected (get sid m))
unfolding should_ignore_messages
should_ignore_connected m sid = ground arith

-- No call but one that adds the session makes it connected.
step_closed :
    (m : Manager) (sid : ℕ) (c : Call)
    → is_connected (get sid m) ≡ false
    → is_adding sid c ≡ false
    → is_connected (get sid (step m c)) ≡ false
unfolding step add_connection try_start_closing mark_closed remove_connection
step_closed m sid (adds j) h n = ground (arith, get-insert j sid connected m)
step_closed m sid (starts_closing j) h n = ground (arith, get-insert j sid closing m)
step_closed m sid (marks_closed j) h n = ground (arith, get-insert j sid closed m)
step_closed m sid (removes j) h n = ground (arith, get-remove j sid m)

run_closed :
    (m : Manager) (sid : ℕ) (cs : List Call)
    → is_connected (get sid m) ≡ false
    → All (λ c. is_adding sid c ≡ false) cs
    → is_connected (get sid (run m cs)) ≡ false
unfolding run
run_closed m sid [] h n = h
run_closed m sid (c ∷ cs) h n = run_closed (step m c) sid cs (step_closed m sid c h n.0) n.1

started_closed :
    (m : Manager) (sid : ℕ) → is_connected (get sid (try_start_closing m sid).1) ≡ false
unfolding try_start_closing
started_closed m sid = ground (arith, get-insert sid sid closing m)

-- After a call of `try_start_closing`, won or lost, and any calls that do not add the session
-- again, another such call loses, and the session's messages are ignored: of any number of closers
-- of a connection one at most wins.
pub try_start_closing_once :
    (m : Manager) (sid : ℕ) (cs : List Call)
    → All (λ c. is_adding sid c ≡ false) cs
    → ((try_start_closing (run (try_start_closing m sid).1 cs) sid).0 ≡ false)
      × (should_ignore_messages (run (try_start_closing m sid).1 cs) sid ≡ true)
try_start_closing_once m sid cs n =
    let m' = run (try_start_closing m sid).1 cs in
    let h = run_closed (try_start_closing m sid).1 sid cs (started_closed m sid) n in
    (try_start_closing_connected m' sid ∙ h, should_ignore_connected m' sid ∙ ap not h)

-- The first closer of a session that was added wins, and until it comes messages are not ignored.
pub try_start_closing-add_connection :
    (m : Manager) (sid : ℕ)
    → ((try_start_closing (add_connection m sid) sid).0 ≡ true)
      × (should_ignore_messages (add_connection m sid) sid ≡ false)
unfolding add_connection
try_start_closing-add_connection m sid =
    let m' = add_connection m sid in
    let h : is_connected (get sid m') ≡ true = ground (arith, get-insert sid sid connected m) in
    (try_start_closing_connected m' sid ∙ h, should_ignore_connected m' sid ∙ ap not h)
