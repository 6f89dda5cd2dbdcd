-- ===== src/Registry/Race.antt =====
-- request_registry.rs, `try_register_waiter`, `close_session_pending` and one of the methods that
-- end a pending request, access by access: each step is one access to a shared map, set or atomic.
-- One session and one key; the session's runtime is shared and stays alive with its holders. The
-- counters and the timeout wheel do not take part.
pub mod Safe
pub mod Ends
use msgtrans.Prelude.{ℕ, List, [], ◌∷◌, Option, none, some, Bool, true, false, ◌==◌, if◌then◌else◌}
use msgtrans.Registry.{RequestState, pending, state_u8, session_closed, responded}

-- Where `register_impl` and then `try_register_waiter` stand: what the thread does next.
pub data Registering : Type 0 where
  resolving inserting listing rechecking undoing undo_removing undo_unlisting undo_dropping :
      Registering
  adding_waiter checking_waiter removing_waiter admitted refused : Registering

-- Where `close_session_pending` stands.
pub data Closing : Type 0 where
  unlinking marking draining ending removing dropping clearing finished : Closing

-- Where a method stands that ends a pending request: `complete_waiter`, `mark_timed_out` or
-- `abort_request_token`.
pub data Ending : Type 0 where
  idle won unlisting waking : Ending

pub record Race : Type 0 where
  pub in_map : Bool
  pub closing : Bool
  pub entry : Option RequestState
  pub listed : Bool
  pub waiter : Bool
  pub registering : Registering
  pub closer : Closing
  pub ender : Ending

abbrev is_pending : Option RequestState → Bool
is_pending none = false
is_pending (some s) = state_u8 s == 0

-- Whether a compare-and-swap from `pending` to `to` succeeds, and where the thread goes.
abbrev swap_pending : Race → RequestState → Race → Race → Race
swap_pending s to taken kept = if is_pending s.entry then record taken { entry = some to } else kept

unfoldable pub registrar : Race → Race
registrar s = elim s.registering [
  | resolving ↦
      if s.in_map
      then (if s.closing
          then record s { registering = refused }
          else record s { registering = inserting })
      else record s { registering = refused }
  | inserting ↦ elim s.entry [
    | none ↦ record s { entry = some pending; registering = listing }
    | some x ↦ record s { registering = refused }
  ]
  | listing ↦ record s { listed = true; registering = rechecking }
  | rechecking ↦
      if s.closing
      then record s { registering = undoing }
      else record s { registering = adding_waiter }
  | undoing ↦
      swap_pending s session_closed (record s { registering = undo_removing })
        (record s { registering = undo_dropping })
  | undo_removing ↦ record s { entry = none; registering = undo_unlisting }
  | undo_unlisting ↦
      if s.in_map
      then record s { listed = false; registering = undo_dropping }
      else record s { registering = undo_dropping }
  | undo_dropping ↦ record s { waiter = false; registering = refused }
  | adding_waiter ↦ record s { waiter = true; registering = checking_waiter }
  | checking_waiter ↦ elim s.entry [
    | none ↦ record s { registering = removing_waiter }
    | some x ↦ record s { registering = admitted }
  ]
  | removing_waiter ↦ record s { waiter = false; registering = refused }
  | admitted ↦ s
  | refused ↦ s
]

unfoldable pub closer_step : Race → Race
closer_step s = elim s.closer [
  | unlinking ↦
      if s.in_map
      then record s { in_map = false; closer = marking }
      else record s { closer = finished }
  | marking ↦ record s { closing = true; closer = draining }
  | draining ↦ if s.listed then record s { closer = ending } else record s { closer = clearing }
  | ending ↦
      swap_pending s session_closed (record s { closer = removing })
        (record s { closer = clearing })
  | removing ↦ record s { entry = none; closer = dropping }
  | dropping ↦ record s { waiter = false; closer = clearing }
  | clearing ↦ record s { listed = false; closer = finished }
  | finished ↦ s
]

unfoldable pub ender_step : Race → Race
ender_step s = elim s.ender [
  | idle ↦ swap_pending s responded (record s { ender = won }) s
  | won ↦ record s { entry = none; ender = unlisting }
  | unlisting ↦
      if s.in_map then record s { listed = false; ender = waking } else record s { ender = waking }
  | waking ↦ record s { waiter = false; ender = idle }
]

pub data Turn : Type 0 where
  registers closes ends : Turn

unfoldable pub take_turn : Race → Turn → Race
take_turn s registers = registrar s
take_turn s closes = closer_step s
take_turn s ends = ender_step s

-- A schedule: whose turn it is, one after the other.
unfoldable pub play : Race → List Turn → Race
play s [] = s
play s (t ∷ ts) = play (take_turn s t) ts

-- An open session without the request.
unfoldable pub open_race : Race
open_race = record {
  in_map = true;
  closing = false;
  entry = none;
  listed = false;
  waiter = false;
  registering = resolving;
  closer = unlinking;
  ender = idle;
}
