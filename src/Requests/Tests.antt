-- ===== src/Requests/Tests.antt =====
-- Requests that are answered, and one that times out.
use msgtrans.Prelude.{◌≡◌, refl, [], ◌∷◌, ◌++◌, List, some, none, ok, err, true, false, not, ◌||◌}
use msgtrans.Packet.{Packet, request_packet, response_packet}
use msgtrans.Registry.{RequestRegistry, RequestToken, outbound, new_with_timing}
use msgtrans.Registry.Register.{
  next_request_id, allocate, outbound_key, try_register_waiter, open_session, register_impl,
  resolve_runtime, admit, track_request, now_closing, add_waiter,
}
use msgtrans.Registry.{remove_terminal_entry, forget_request}
use msgtrans.Prelude.Map.{get, insert, remove}
use msgtrans.Registry.Respond.{complete_waiter, mark_responded_key, wake}
use msgtrans.Events.{charge_size, charge_permits}
use msgtrans.Registry.Step.{Call, run, step, opens, registers_waiter, completes}
use msgtrans.Registry.Answers.{Answers}
use msgtrans.Messages.{
  send_confirmed_with, send_through, send_with_completion, charge_outbound, send_item, finish_write,
  complete, await_receipt, Outside, elapses, writes,
}
use msgtrans.Requests.{
  Meanwhile, runs_on, registered, receive, request, RequestOptions, request_with_options,
}
use msgtrans.Errors.{connection_error}
use msgtrans.Packet.ToyCodecs.{toy_codecs}
use msgtrans.Messages.{new_options, apply, apply_over}
use msgtrans.Requests.OfServer.{send_to_session, settle_send, Peer, request_to_session}
use msgtrans.Requests.Ends.{is_answer, is_registered, request_released, request_to_session_released}
use msgtrans.Requests.Answered.{request_answered, request_to_session_answered}

abbrev history : List Call
history = opens 4 ∷ []

abbrev registry : RequestRegistry
registry = run (new_with_timing 8 10) history

abbrev question : Packet
question = request_packet 1 (5 ∷ [])

abbrev reply : Packet
reply = response_packet 1 (6 ∷ [])

abbrev connected : Outside
connected = record {
  slot = some 4;
  budget_capacity = 64;
  permits = 64;
  permits_in_time = true;
  queue_closed = false;
  depth = 0;
  max_capacity = 4;
  wait = elapses;
  queueing = writes (ok tt);
  queue_name = "queue";
  closed_msg = "closed";
}

abbrev peer : Peer
peer = record { has_handle = true; actor_writes = ok tt; has_transport = true; outside = connected }

abbrev nothing : Meanwhile
nothing = record { sending = []; waiting = []; fate = runs_on }

abbrev answering : Meanwhile
answering = record { sending = []; waiting = completes (some 4) 1 reply ∷ []; fate = runs_on }

abbrev token : RequestToken
token = record { session_id = some 4; request_id = 1; direction = outbound; generation = 1 }

registers_question :
    (try_register_waiter registry
      (question.header).message_id
      (some 4)
      (question.header).biz_type
      30000000000
      100).0
    ≡ some (0, token)
unfolding run step new_with_timing open_session try_register_waiter add_waiter register_impl
    resolve_runtime admit track_request now_closing get insert request_packet
registers_question = refl

request_returns : (request connected answering 100 registry question).0 ≡ some (ok reply)
unfolding run step new_with_timing open_session try_register_waiter add_waiter register_impl
    resolve_runtime admit track_request now_closing get insert request_packet registered
    complete_waiter mark_responded_key wake remove remove_terminal_entry forget_request receive
    request send_confirmed_with send_through send_with_completion charge_outbound send_item
    finish_write complete await_receipt charge_size charge_permits response_packet
request_returns = refl

-- The connection is replaced between the two lookups of the session, and the new session has a request
-- in flight under the id that the old one gave.
abbrev replaced : RequestRegistry
replaced =
    run (new_with_timing 8 10) (opens 4 ∷ opens 5 ∷ registers_waiter 1 (some 5) 2 50 100 ∷ [])

abbrev plain : RequestOptions
plain = record { send = new_options; timeout = none }

reads_session_twice :
    (request_with_options toy_codecs
      (some 4)
      (record connected { slot = some 5 })
      nothing
      100
      replaced
      (5 ∷ [])
      plain).0
    ≡ some (err (connection_error "Duplicate in-flight request id" false))
unfolding run step new_with_timing open_session try_register_waiter add_waiter register_impl
    resolve_runtime admit track_request now_closing get insert request_packet registered
    request_with_options next_request_id allocate apply apply_over new_options
reads_session_twice = refl

request_to_session_returns :
    (request_to_session peer answering 500 100 registry 4 question).0 ≡ some (ok reply)
unfolding run step new_with_timing open_session try_register_waiter add_waiter register_impl
    resolve_runtime admit track_request now_closing get insert request_packet registered
    complete_waiter mark_responded_key wake remove remove_terminal_entry forget_request receive
    request_to_session send_to_session settle_send response_packet
request_to_session_returns = refl

request_released_example :
    let out = request connected nothing 100 registry question in
    (is_answer out.0 || not (is_registered out.1 token)) ≡ true
request_released_example =
    request_released connected nothing 100 registry question 0 token (unfold request_packet in refl)
      registers_question

request_to_session_released_example :
    let out = request_to_session peer nothing 500 100 registry 4 question in
    (is_answer out.0 || not (is_registered out.1 token)) ≡ true
request_to_session_released_example =
    request_to_session_released peer nothing 500 100 registry 4 question 0 token refl
      (unfold request_packet in refl) registers_question

request_answered_example :
    Answers (outbound_key (some 4) 1) reply (answering.sending ++ answering.waiting)
unfolding request_packet
request_answered_example =
    request_answered 8 10 history connected answering 100 question reply request_returns

request_to_session_answered_example :
    Answers (outbound_key (some 4) 1) reply (answering.sending ++ answering.waiting)
unfolding request_packet
request_to_session_answered_example =
    request_to_session_answered 8 10 history peer answering 500 100 4 question reply
      request_to_session_returns
