-- ===== src/Server/Serve.antt =====
-- transport/transport_server.rs: `serve`, the owned startup task and its tail.
use msgtrans.Prelude.{
  ℕ, zero, suc, List, [], ◌∷◌, ◌++◌, none, some, Bool, true, false, ◌&&◌, ◌==◌, Result, ok, err,
  String, if◌then◌else◌,
}
use msgtrans.Errors.{TransportError, configuration, literal}
use msgtrans.Server.{
  idle, starting, running, stopped, is_phase, Infra, scanner, accepting, finished, Startup,
  unstarted, building, listening, publishing, draining, done, Server,
}

abbrev config_error : String → String → TransportError
config_error field reason = configuration field (literal reason)

-- The compare-and-swap from idle; a server that has left it refuses.
unfoldable pub serve : Server → Result TransportError (Unit {0}) × Server
serve s =
    if is_phase s.phase idle
    then (ok tt, record s { phase = starting; startup = building s.protocols })
    else (
      err (
          config_error "server"
            "serve() may run once: server is already starting, running, or stopped"),
      s,
    )

-- What `serve` returns once the phase is stopped.
unfoldable pub serve_result : Server → Result TransportError (Unit {0})
serve_result s = elim s.serve_error [
  | some e ↦ err e
  | none ↦
      if s.infra_failed
      then err (
          config_error "server"
            "an infrastructure task failed; all siblings were stopped and joined")
      else ok tt
]

-- How the build of one protocol's server turns out. The cancellation is seen only where there is
-- one.
pub data Build : Type 0 where
  builds panics sees_cancel : Build
  fails : TransportError → Build

-- The startup's error, and on to its tail.
abbrev pub give_up : Server → TransportError → Server
give_up s e = record s { serve_error = some e; startup = draining }

unfoldable pub build_turn : Server → ℕ → Build → Server
build_turn s left builds = record s { startup = building left }
build_turn s left (fails e) = give_up s e
build_turn s left panics =
    give_up (record s { admission_open = false; root_cancelled = true })
      (config_error "server" "startup panicked")
build_turn s left sees_cancel =
    if s.root_cancelled
    then give_up s (config_error "server" "startup cancelled by shutdown")
    else s

-- Every infrastructure task has ended.
abbrev pub has_finished : Infra → Bool
has_finished finished = true
has_finished _ = false

abbrev pub all_finished : List Infra → Bool
all_finished [] = true
all_finished (task ∷ tasks) = has_finished task && all_finished tasks

-- The next stretch of the startup task: every server is built, then every listener is spawned, and
-- the scanner; the phase is published unless a shutdown came first; the tail waits for the tracker.
unfoldable pub startup_turn : Server → Startup → Build → Server
unfolding build_turn
startup_turn s unstarted how = s
startup_turn s (building zero) how =
    if s.protocols == 0
    then give_up s (config_error "protocols" "No protocols configured")
    else record s { startup = listening s.protocols }
startup_turn s (building (suc left)) how = build_turn s left how
startup_turn s (listening zero) how = record s {
  infra = s.infra ++ (scanner ∷ []);
  startup = publishing;
}
startup_turn s (listening (suc left)) how = record s {
  infra = s.infra ++ (accepting ∷ []);
  startup = listening left;
}
startup_turn s publishing how =
    if is_phase s.phase starting
    then record s { phase = running; startup = draining }
    else record s { startup = draining }
startup_turn s draining how =
    if all_finished s.infra then record s { phase = stopped; startup = done } else s
startup_turn s done how = s
