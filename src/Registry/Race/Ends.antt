-- ===== src/Registry/Race/Ends.antt =====
-- request_registry.rs: how many turns a registration and a close take, and what is left after them.
use msgtrans.Prelude.{ℕ, ◌+◌, ◌-◌, ◌≤◌, ◌≡◌, List, [], ◌∷◌, none, false, arith}
use msgtrans.Registry.Race.{
  Registering, resolving, inserting, listing, rechecking, undoing, undo_removing, undo_unlisting,
  undo_dropping, adding_waiter, checking_waiter, removing_waiter, admitted, refused, Closing,
  unlinking, marking, draining, ending, removing, dropping, clearing, finished, idle, Race,
  registrar, closer_step, ender_step, Turn, registers, closes, ends, take_turn, play, open_race,
}
use msgtrans.Registry.Race.Safe.{Safe, play-Safe, open_race-Safe}

-- The turns that a thread still has to take, at most.
abbrev registering_left : Registering → ℕ
registering_left resolving = 8
registering_left inserting = 7
registering_left listing = 6
registering_left rechecking = 5
registering_left undoing = 4
registering_left undo_removing = 3
registering_left undo_unlisting = 2
registering_left undo_dropping = 1
registering_left adding_waiter = 3
registering_left checking_waiter = 2
registering_left removing_waiter = 1
registering_left admitted = 0
registering_left refused = 0

abbrev closing_left : Closing → ℕ
closing_left unlinking = 7
closing_left marking = 6
closing_left draining = 5
closing_left ending = 4
closing_left removing = 3
closing_left dropping = 2
closing_left clearing = 1
closing_left finished = 0

registrar_left :
    (s : Race)
    → (registering_left (registrar s).registering ≤ registering_left s.registering - 1)
      × ((registrar s).closer ≡ s.closer)
unfolding registrar
registrar_left s = ground arith

closer_left :
    (s : Race)
    → (closing_left (closer_step s).closer ≤ closing_left s.closer - 1)
      × ((closer_step s).registering ≡ s.registering)
unfolding closer_step
closer_left s = ground arith

ender_left :
    (s : Race) → ((ender_step s).registering ≡ s.registering) × ((ender_step s).closer ≡ s.closer)
unfolding ender_step
ender_left s = ground arith

-- How many turns of a schedule are the registration's, and the close's.
abbrev pub registering_turns : List Turn → ℕ
registering_turns [] = 0
registering_turns (registers ∷ ts) = registering_turns ts + 1
registering_turns (_ ∷ ts) = registering_turns ts

abbrev pub closing_turns : List Turn → ℕ
closing_turns [] = 0
closing_turns (closes ∷ ts) = closing_turns ts + 1
closing_turns (_ ∷ ts) = closing_turns ts

play_left :
    (s : Race) (ts : List Turn)
    → (registering_left (play s ts).registering
        ≤ registering_left s.registering - registering_turns ts)
      × (closing_left (play s ts).closer ≤ closing_left s.closer - closing_turns ts)
unfolding play take_turn
play_left s [] = (omega arith, omega arith)
play_left s (registers ∷ ts) =
    let h = play_left (registrar s) ts in let l = registrar_left s in grind (arith, h, l)
play_left s (closes ∷ ts) =
    let h = play_left (closer_step s) ts in let l = closer_left s in grind (arith, h, l)
play_left s (ends ∷ ts) =
    let h = play_left (ender_step s) ts in let l = ender_left s in grind (arith, h, l)

settled :
    (s : Race)
    → Safe s
    → registering_left s.registering ≤ 0
    → closing_left s.closer ≤ 0
    → s.ender ≡ idle
    → (s.entry ≡ none) × (s.waiter ≡ false)
settled s h r c e = ground (arith, h.owner_ok, h.passed_ok, h.waiter_ok, h.early_waiter_ok)

-- A registration of an outbound request, the close of its session and a method that ends the
-- request, in any interleaving of their accesses: once the registration has had 8 turns and the
-- close 7, and no ending is halfway, the request is gone from the table and its waiter is gone too.
-- Neither is left behind, whoever came first.
pub nothing_left_behind :
    (ts : List Turn)
    → 8 ≤ registering_turns ts
    → 7 ≤ closing_turns ts
    → (play open_race ts).ender ≡ idle
    → ((play open_race ts).entry ≡ none) × ((play open_race ts).waiter ≡ false)
unfolding open_race
nothing_left_behind ts r c e =
    let (a, b) = play_left open_race ts in
    settled (play open_race ts) (play-Safe open_race ts open_race-Safe) (omega arith) (omega arith)
      e
