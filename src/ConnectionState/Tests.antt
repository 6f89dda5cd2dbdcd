-- ===== src/ConnectionState/Tests.antt =====
-- Closers of one connection.
use msgtrans.Prelude.{◌≡◌, refl, List, [], ◌∷◌, true, false}
use msgtrans.ConnectionState.{
  Call, adds, starts_closing, marks_closed, run, new_manager, add_connection, try_start_closing,
  should_ignore_messages, Manager,
}
use msgtrans.ConnectionState.Closers.{try_start_closing_once}

abbrev others : List Call
others = starts_closing 3 ∷ adds 4 ∷ marks_closed 3 ∷ []

abbrev opened : Manager
opened = add_connection new_manager 3

try_start_closing_once_example :
    ((try_start_closing (run (try_start_closing opened 3).1 others) 3).0 ≡ false)
    × (should_ignore_messages (run (try_start_closing opened 3).1 others) 3 ≡ true)
try_start_closing_once_example = try_start_closing_once opened 3 others (refl, (refl, (refl, tt)))
