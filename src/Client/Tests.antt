-- ===== src/Client/Tests.antt =====
-- A client with one connection, whose peer asks twice, and one that connects at its second attempt.
use msgtrans.Prelude.{
  List, ℕ, zero, suc, ◌≡◌, ◌≤◌, ◌-◌, refl, some, none, [], ◌∷◌, ok, err, Result, true, false, not,
  ◌&&◌, ◌==◌, if◌then◌else◌, implies, ltb,
}
use msgtrans.Prelude.Map.{nat_eq, get, is_some}
use msgtrans.Packet.{Packet, request_packet}
use msgtrans.Errors.{TransportError, is_retryable, connection_error, normal}
use msgtrans.Events.{message_received, connection_closed}
use msgtrans.Registry.{key_eq, key_beq, new_with_timing}
use msgtrans.Registry.Register.{new_entry}
use msgtrans.Registry.Admission.{is_open, inbound_key, token_of}
use msgtrans.Sessions.{request_lifecycle_timeout}
use msgtrans.Transport.{Transport, is_of, set_connection, with_context}
use msgtrans.Transport.Dispatch.{Arrival, consume, on_event}
use msgtrans.Client.{request, disconnected, client_request, connect_with_stored_config, attempts}
use msgtrans.Client.Delivered.{delivered, request_delivered, consumer_retires, nothing_after_close}
use msgtrans.Client.Connects.{fails_retryable, connect_tries}

abbrev connected : Transport
connected = (set_connection (with_context (new_with_timing 8 10)) 70).1

abbrev question : Packet
question = request_packet 5 (6 ∷ [])

request_delivered_example :
    let r = connected.request_registry in
    let k = inbound_key 1 5 in
    let free = is_open r 1 && not (is_some (get k r.entries)) in
    let after = on_event connected 1 (message_received question) 100 101 in
    (delivered after.0 ≡ (
      if free
      then some (request (client_request 1 question (token_of 1 5 r.next_generation)))
      else none))
    × (get k (after.1.request_registry).entries ≡ (
        if free && key_beq k k
        then some
            (new_entry k (question.header).biz_type 100 request_lifecycle_timeout r.next_generation)
        else get k r.entries))
unfolding request_packet
request_delivered_example = request_delivered connected 1 question 100 101 (inbound_key 1 5) refl

-- One request arrives, and then the pipe ends.
abbrev arrivals : List Arrival
arrivals =
    record { others = λ t. t; event = message_received question; now = 100; later = 101 } ∷ []

consumer_retires_example :
    let t' = (consume connected 1 arrivals).1 in
    (is_of t'.slot 1 ≡ false)
    × (is_open t'.request_registry 1 ≡ false)
    × (delivered (on_event t' 1 (message_received question) 102 103).0 ≡ none)
unfolding request_packet
consumer_retires_example = consumer_retires connected 1 arrivals question 102 103 refl

nothing_after_close_example :
    let closing = on_event connected 1 (connection_closed normal) 100 101 in
    let t' = closing.1 in
    (delivered closing.0 ≡ some (disconnected normal))
    × (is_of t'.slot 1 ≡ false)
    × (is_open t'.request_registry 1 ≡ false)
    × (get 1 (t'.request_registry).sessions
        ≡ (if 1 == 1 then none else get 1 (connected.request_registry).sessions))
    × (delivered (on_event t' 1 (message_received question) 102 103).0 ≡ none)
unfolding request_packet
nothing_after_close_example = nothing_after_close connected 1 normal question 100 101 102 103 1 refl

-- The first attempt fails, and may be tried again.
abbrev second_time : ℕ → Result TransportError ℕ
second_time zero = err (connection_error "refused" true)
second_time (suc n) = ok 70

connect_tries_example :
    let out = connect_with_stored_config none second_time 3 in
    (1 ≤ out.1)
    × (out.1 ≤ 4)
    × (out.0 ≡ second_time (out.1 - 1))
    × (implies (ltb 1 out.1) (fails_retryable (second_time 0)) ≡ true)
    × (implies (fails_retryable (second_time (out.1 - 1))) (out.1 == 4) ≡ true)
connect_tries_example = connect_tries second_time 3 0

second_time-connects : connect_with_stored_config none second_time 3 ≡ (ok 70, 2)
unfolding connect_with_stored_config attempts is_retryable
second_time-connects = refl
