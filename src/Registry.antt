-- ===== src/Registry.antt =====
-- The state of crates/msgtrans/src/transport/request_registry.rs. Each method is one step of the
-- model: the interleaving of two methods' atomic accesses is not modelled here. A `DashMap` is a
-- map, a `DashSet` a map to `Unit`. Instants and durations are numbers of nanoseconds. Oneshot
-- channels are numbered in the order of their creation, and `woken` lists what was sent on which.
pub mod Register
pub mod Respond
pub mod Abort
pub mod Close
pub mod Wheel
pub mod Step
pub mod Invariant
pub mod Gauge
pub mod Tokens
pub mod Waiters
pub mod Ids
pub mod Deadlines
pub mod Closing
pub mod Shut
pub mod Refused
pub mod Resolve
pub mod Aborting
pub mod Listed
pub mod Orphans
pub mod Race
pub mod Channels
pub mod Answers
pub mod Fresh
pub mod Admission
mod Tests
use msgtrans.Prelude.{
  ℕ, zero, suc, ◌+◌, ◌-◌, ◌*◌, ◌%◌, ◌^◌, ◌≡◌, ◌↔◌, refl, List, [], ◌∷◌, ◌++◌, Option, none, some,
  Result, ok, err, Bool, true, false, ◌&&◌, ◌==◌, if◌then◌else◌, arith, max, ltb, replicate,
}
use msgtrans.Prelude.Map.{Eq, nat_eq, Map, get, insert, remove}
use msgtrans.Packet.{Packet}

pub data RequestDirection : Type 0 where
  inbound outbound : RequestDirection

pub record RequestKey : Type 0 where
  pub session_id : Option ℕ
  pub request_id : ℕ
  pub direction : RequestDirection

abbrev pub direction_beq : RequestDirection → RequestDirection → Bool
direction_beq inbound inbound = true
direction_beq outbound outbound = true
direction_beq _ _ = false

abbrev pub session_beq : Option ℕ → Option ℕ → Bool
session_beq none none = true
session_beq (some a) (some b) = a == b
session_beq _ _ = false

abbrev pub key_beq : RequestKey → RequestKey → Bool
key_beq a b =
    session_beq a.session_id b.session_id
    && ((a.request_id == b.request_id) && direction_beq a.direction b.direction)

pub key_beq_iff : (a b : RequestKey) → (key_beq a b ≡ true) ↔ (a ≡ b)
key_beq_iff a b = ground arith

instance abbrev pub key_eq : Eq RequestKey
key_eq = record { beq = key_beq; beq_iff = key_beq_iff }

pub data RequestState : Type 0 where
  pending responded timed_out session_closed dropped responding send_failed : RequestState

-- The byte that the atomic state holds.
abbrev pub state_u8 : RequestState → ℕ
state_u8 pending = 0
state_u8 responded = 1
state_u8 timed_out = 2
state_u8 session_closed = 3
state_u8 dropped = 4
state_u8 responding = 5
state_u8 send_failed = 6

pub record RequestEntry : Type 0 where
  pub key : RequestKey
  pub biz_type : ℕ
  pub created_at : ℕ
  pub deadline_at : ℕ
  pub generation : ℕ
  pub state : RequestState

-- `compare_exchange` on the state: the entry with its new state, or the state found.
abbrev pub try_transition :
    RequestEntry → RequestState → RequestState → Result RequestState RequestEntry
try_transition e from to =
    if state_u8 e.state == state_u8 from then ok (record e { state = to }) else err e.state

pub data MarkResult : Type 0 where
  updated : MarkResult
  already : RequestState → MarkResult
  not_found : MarkResult

pub record RequestToken : Type 0 where
  pub session_id : Option ℕ
  pub request_id : ℕ
  pub direction : RequestDirection
  pub generation : ℕ

abbrev pub token_key : RequestToken → RequestKey
token_key t = record {
  session_id = t.session_id;
  request_id = t.request_id;
  direction = t.direction;
}

-- Counters are u64 and wrap.
pub record RequestCounters : Type 0 where
  pub pending_requests : ℕ
  pub request_timeout_total : ℕ
  pub duplicate_response_total : ℕ
  pub session_closed_pending_total : ℕ
  pub response_send_failed_total : ℕ

abbrev pub u64_mod : ℕ
u64_mod = 2 ^ 64

-- `fetch_add(n)` and `fetch_sub(1)` on a u64.
abbrev pub add64 : ℕ → ℕ → ℕ
add64 c n = (c + n) % u64_mod

abbrev pub dec64 : ℕ → ℕ
dec64 c = (c + u64_mod - 1) % u64_mod

-- `closing` is the one-way state, 0 for open.
pub record SessionRuntime : Type 0 where
  pub closing : Bool
  pub requests : Map RequestKey (Unit {0})
  pub next_request_id : ℕ

abbrev pub new_runtime : SessionRuntime
new_runtime = record { closing = false; requests = []; next_request_id = 1 }

pub record RequestRegistry : Type 0 where
  pub entries : Map RequestKey RequestEntry
  pub waiters : Map RequestKey ℕ
  pub sessions : Map ℕ SessionRuntime
  pub counters : RequestCounters
  pub buckets : List (List RequestKey)
  pub bucket_count : ℕ
  pub tick_duration : ℕ
  pub current_tick : ℕ
  pub next_id : ℕ
  pub next_generation : ℕ
  pub next_channel : ℕ
  pub woken : List (ℕ × Packet)

abbrev pub default_timeout_bucket_count : ℕ
default_timeout_bucket_count = 256

-- 100 ms.
abbrev pub default_timeout_tick : ℕ
default_timeout_tick = 100000000

unfoldable pub new_with_timing : ℕ → ℕ → RequestRegistry
new_with_timing bucket_count tick_duration =
    let safe_bucket_count = max bucket_count 8 in
    record {
      entries = [];
      waiters = [];
      sessions = [];
      counters = record {
        pending_requests = 0;
        request_timeout_total = 0;
        duplicate_response_total = 0;
        session_closed_pending_total = 0;
        response_send_failed_total = 0;
      };
      buckets = replicate safe_bucket_count [];
      bucket_count = safe_bucket_count;
      tick_duration = if tick_duration == 0 then default_timeout_tick else tick_duration;
      current_tick = 0;
      next_id = 1;
      next_generation = 1;
      next_channel = 0;
      woken = [];
    }

unfoldable pub new_registry : RequestRegistry
unfolding new_with_timing
new_registry = new_with_timing default_timeout_bucket_count default_timeout_tick

-- Counter updates.
abbrev pub count_pending : RequestRegistry → RequestRegistry
count_pending r = record r {
  counters = record (r.counters) { pending_requests = add64 (r.counters).pending_requests 1 };
}

abbrev pub uncount_pending : RequestRegistry → RequestRegistry
uncount_pending r = record r {
  counters = record (r.counters) { pending_requests = dec64 (r.counters).pending_requests };
}

abbrev pub count_duplicate : RequestRegistry → RequestRegistry
count_duplicate r = record r {
  counters = record (r.counters) {
    duplicate_response_total = add64 (r.counters).duplicate_response_total 1;
  };
}

abbrev pub count_timeout : RequestRegistry → RequestRegistry
count_timeout r = record r {
  counters = record (r.counters) {
    request_timeout_total = add64 (r.counters).request_timeout_total 1;
  };
}

-- `record_response_send_failed`.
abbrev pub count_send_failed : RequestRegistry → RequestRegistry
count_send_failed r = record r {
  counters = record (r.counters) {
    response_send_failed_total = add64 (r.counters).response_send_failed_total 1;
  };
}

-- An entry is shared and changes in place.
abbrev pub store_entry : RequestRegistry → RequestKey → RequestEntry → RequestRegistry
store_entry r k e = record r { entries = insert k e r.entries }

abbrev pub remove_waiter : RequestRegistry → RequestKey → RequestRegistry
remove_waiter r k = record r { waiters = remove k r.waiters }

-- The session's set of live requests without `k`.
unfoldable pub forget_request : RequestRegistry → RequestKey → Option ℕ → RequestRegistry
forget_request r k none = r
forget_request r k (some sid) = elim (get sid r.sessions) [
  | none ↦ r
  | some rt ↦ record r {
    sessions = insert sid (record rt { requests = remove k rt.requests }) r.sessions;
  }
]

unfoldable pub remove_terminal_entry : RequestRegistry → RequestKey → RequestRegistry
unfolding forget_request
remove_terminal_entry r k =
    forget_request (record r { entries = remove k r.entries }) k k.session_id

-- An entry that moved to a terminal state: the gauge goes down and the entry is removed.
abbrev pub retire : RequestRegistry → RequestKey → RequestEntry → RequestRegistry
retire r k e = remove_terminal_entry (uncount_pending (store_entry r k e)) k
