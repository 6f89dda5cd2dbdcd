-- ===== src/Server/Tests.antt =====
-- Runs of a server, and the theorems at one.
use msgtrans.Prelude.{implies, ◌+◌, ◌≤◌, ◌≡◌, refl, List, [], ◌∷◌, ◌++◌, true, false, length, ◌||◌}
use msgtrans.Prelude.Map.{nat_eq, get, insert, remove, is_some}
use msgtrans.Server.{Server, stopped, is_phase, reporting, new_server, with_max_connections}
use msgtrans.Server.Listen.{infra_turn, accepts, fails, sees_cancel}
use msgtrans.Server.Supervise.{supervise, actor_panics, pump_ends}
use msgtrans.Server.Serve.{serve, startup_turn, builds, all_finished}
use msgtrans.Server.Shutdown.{live_session_tasks, report, shutdown_turn}
use msgtrans.Server.Turns.{
  Turn, serves, starts_up, works, in_session, supervises, calls_shutdown, shuts_down, session_turn,
  call_shutdown, take_turn, play,
}
use msgtrans.Server.Capacity.{held, sessions_within_cap}
use msgtrans.Server.Finality.{clean_is_final}
use msgtrans.Server.Live.{tracks, is_live}
use msgtrans.Server.Leaks.{maps_name_the_living}

abbrev start : Server
start = with_max_connections (new_server 1) 2

-- The server is up, and has accepted one connection.
abbrev up : List Turn
up =
    serves
    ∷ starts_up builds
    ∷ starts_up builds
    ∷ starts_up builds
    ∷ starts_up builds
    ∷ starts_up builds
    ∷ works 0 (accepts true)
    ∷ works 0 fails
    ∷ works 0 fails
    ∷ works 0 fails
    ∷ works 0 fails
    ∷ works 0 fails
    ∷ []

-- A shutdown, the end of the session under it, and of the infrastructure.
abbrev down : List Turn
down =
    calls_shutdown
    ∷ shuts_down false
    ∷ shuts_down false
    ∷ shuts_down false
    ∷ shuts_down false
    ∷ in_session 0 actor_panics
    ∷ supervises 0
    ∷ in_session 0 pump_ends
    ∷ supervises 0
    ∷ works 0 sees_cancel
    ∷ works 1 sees_cancel
    ∷ starts_up builds
    ∷ shuts_down false
    ∷ shuts_down false
    ∷ shuts_down false
    ∷ shuts_down false
    ∷ []

up_tracks : (live_session_tasks (play start up) ≡ 1) × ((play start up).permits ≡ 1)
unfolding play take_turn call_shutdown shutdown_turn serve startup_turn with_max_connections
    new_server infra_turn session_turn supervise get insert remove
up_tracks = (refl, refl)

down_reports : (play start (up ++ down)).shutdown ≡ reporting
unfolding play take_turn call_shutdown shutdown_turn serve startup_turn with_max_connections
    new_server infra_turn session_turn supervise get insert remove
down_reports = refl

down_is_clean : (report (play start (up ++ down))).clean ≡ true
unfolding report play take_turn call_shutdown shutdown_turn serve startup_turn with_max_connections
    new_server infra_turn session_turn supervise get insert remove
down_is_clean = refl

sessions_within_cap_example :
    ((play start up).permits + held (play start up).infra + length (play start up).sessions ≡ 2)
    × (live_session_tasks (play start up) ≤ 2)
sessions_within_cap_example = sessions_within_cap 1 2 up

clean_is_final_example :
    let later = play (play start (up ++ down)) up in
    (live_session_tasks later ≡ 0)
    × (later.transports ≡ [])
    × (all_finished later.infra ≡ true)
    × (is_phase later.phase stopped ≡ true)
    × (later.permits ≡ 2)
clean_is_final_example = clean_is_final 1 2 (up ++ down) up down_reports down_is_clean

maps_name_the_living_example :
    let s = play start up in
    (implies (is_some (get 1 s.transports) || is_some (get 1 s.session_handles)) (is_live s 1)
      ≡ true)
    × (implies (is_some (get 1 s.session_cancels)) (tracks s.sessions 1) ≡ true)
maps_name_the_living_example = maps_name_the_living 1 2 up 1
