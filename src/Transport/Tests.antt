-- ===== src/Transport/Tests.antt =====
-- A late close of the first generation, after the second was installed.
use msgtrans.Prelude.{◌≡◌, [], ◌++◌, none, ◌==◌, ◌&&◌, if◌then◌else◌}
use msgtrans.Prelude.Map.{nat_eq, get}
use msgtrans.Registry.{new_with_timing}
use msgtrans.Registry.Close.{close_session_pending}
use msgtrans.Transport.{Transport, is_of, set_connection, with_context, fails}
use msgtrans.Transport.Generations.{gracefully, close_by, goes_on, calls_of, close_by_own}

abbrev replaced : Transport
replaced = (set_connection (set_connection (with_context (new_with_timing 8 10)) 70).1 71).1

close_by_own_example :
    let k = gracefully fails in
    let t' = close_by k replaced 1 in
    let on = goes_on k replaced 1 in
    (t'.slot ≡ (if on && is_of replaced.slot 1 then none else replaced.slot))
    × (t'.closed
        ≡ replaced.closed ++ (if on && is_of replaced.slot 1 then calls_of k replaced.slot else []))
    × (t'.connection_epoch ≡ replaced.connection_epoch)
    × (get 2 t'.state_manager ≡ (if on && (1 == 2) then none else get 2 replaced.state_manager))
    × (get 2 (t'.request_registry).sessions
        ≡ (if on && (1 == 2) then none else get 2 (replaced.request_registry).sessions))
    × (t'.request_registry ≡ (
        if on
        then (close_session_pending replaced.request_registry 1).1
        else replaced.request_registry))
    × ((if on then replaced else t') ≡ replaced)
close_by_own_example = close_by_own (gracefully fails) replaced 1 2
