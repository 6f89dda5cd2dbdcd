-- ===== src/Registry/Race/Safe.antt =====
-- request_registry.rs: however a registration, a close and an ending interleave, no request and no
-- waiter is left behind.
use msgtrans.Prelude.{
  implies, ◌≡◌, refl, List, [], ◌∷◌, Option, none, some, Bool, true, false, not, ◌&&◌, ◌||◌, ◌==◌,
  if◌then◌else◌, arith,
}
use msgtrans.Registry.{RequestState, state_u8}
use msgtrans.Registry.Race.{
  Registering, resolving, inserting, listing, rechecking, undoing, undo_removing, undo_unlisting,
  checking_waiter, removing_waiter, admitted, Closing, unlinking, marking, removing, dropping,
  clearing, finished, Ending, won, unlisting, waking, Race, registrar, closer_step, ender_step,
  Turn, registers, closes, ends, take_turn, play, open_race,
}

-- Before the entry is inserted; before the recheck has said that the session is open.
abbrev pub early : Registering → Bool
early resolving = true
early inserting = true
early _ = false

abbrev pub unchecked : Registering → Bool
unchecked listing = true
unchecked rechecking = true
unchecked undoing = true
unchecked _ = false

abbrev pub is_listing : Registering → Bool
is_listing listing = true
is_listing _ = false

-- The registering thread is about to take its own waiter away, if the entry is gone.
abbrev pub guards_waiter : Registering → Bool
guards_waiter checking_waiter = true
guards_waiter removing_waiter = true
guards_waiter _ = false

abbrev pub has_waiter : Registering → Bool
has_waiter checking_waiter = true
has_waiter removing_waiter = true
has_waiter admitted = true
has_waiter _ = false

abbrev pub is_undo_removing : Registering → Bool
is_undo_removing undo_removing = true
is_undo_removing _ = false

abbrev pub is_removing : Closing → Bool
is_removing removing = true
is_removing _ = false

abbrev pub is_dropping : Closing → Bool
is_dropping dropping = true
is_dropping _ = false

-- The close has passed the request by.
abbrev pub passed : Closing → Bool
passed clearing = true
passed finished = true
passed dropping = true
passed _ = false

abbrev pub is_finished : Closing → Bool
is_finished finished = true
is_finished _ = false

abbrev pub is_unlisting : Registering → Bool
is_unlisting undo_unlisting = true
is_unlisting _ = false

abbrev pub marked : Closing → Bool
marked unlinking = false
marked marking = false
marked _ = true

abbrev pub linked : Closing → Bool
linked unlinking = true
linked _ = false

abbrev pub is_won : Ending → Bool
is_won won = true
is_won _ = false

abbrev pub to_wake : Ending → Bool
to_wake unlisting = true
to_wake waking = true
to_wake _ = false

abbrev pub alive : Option RequestState → Bool
alive none = false
alive (some s) = state_u8 s == 0

abbrev pub present : Option RequestState → Bool
present none = false
present (some s) = true

abbrev pub one_of : Bool → Bool → Bool → Bool
one_of true b c = not b && not c
one_of false true c = not c
one_of false false c = c

-- The facts that no access breaks.
pub record Safe (s : Race) : Type 0 where
  pub map_ok : s.in_map ≡ linked s.closer
  pub closing_ok : s.closing ≡ marked s.closer
  pub early_ok : implies (early s.registering) (not (present s.entry)) ≡ true
  -- an ended entry has one thread that removes it, and only an ended one has
  pub owner_ok :
      (if present s.entry && not (alive s.entry)
        then one_of (is_undo_removing s.registering) (is_removing s.closer) (is_won s.ender)
        else not (is_undo_removing s.registering || (is_removing s.closer || is_won s.ender)))
      ≡ true
  pub passed_ok : implies (passed s.closer && alive s.entry) (unchecked s.registering) ≡ true
  pub listed_ok :
      implies (not (is_finished s.closer) && alive s.entry) (s.listed || is_listing s.registering)
      ≡ true
  pub gone_ok :
      implies
        (to_wake s.ender || (is_dropping s.closer || is_unlisting s.registering))
        (not (present s.entry) && not (early s.registering))
      ≡ true
  pub waiter_ok :
      implies s.waiter (
        present s.entry
        || (guards_waiter s.registering || (is_dropping s.closer || to_wake s.ender)))
      ≡ true
  pub early_waiter_ok : implies s.waiter (has_waiter s.registering) ≡ true

closer-Safe : (s : Race) → Safe s → Safe (closer_step s)
unfolding closer_step
closer-Safe s h = ground arith

ender-Safe : (s : Race) → Safe s → Safe (ender_step s)
unfolding ender_step
ender-Safe s h = ground arith

registrar-Safe : (s : Race) → Safe s → Safe (registrar s)
unfolding registrar
registrar-Safe s h = ground arith

pub play-Safe : (s : Race) (ts : List Turn) → Safe s → Safe (play s ts)
unfolding play take_turn
play-Safe s [] h = h
play-Safe s (registers ∷ ts) h = play-Safe (registrar s) ts (registrar-Safe s h)
play-Safe s (closes ∷ ts) h = play-Safe (closer_step s) ts (closer-Safe s h)
play-Safe s (ends ∷ ts) h = play-Safe (ender_step s) ts (ender-Safe s h)

pub open_race-Safe : Safe open_race
unfolding open_race
open_race-Safe = record {
  map_ok = refl;
  closing_ok = refl;
  early_ok = refl;
  owner_ok = refl;
  passed_ok = refl;
  listed_ok = refl;
  gone_ok = refl;
  waiter_ok = refl;
  early_waiter_ok = refl;
}
