-- ===== src/Registry/Step.antt =====
-- The methods of the registry as one step relation: any history of calls, from any thread, seen as
-- a sequence of whole methods.
use msgtrans.Prelude.{ℕ, List, [], ◌∷◌, Option, Bool}
use msgtrans.Packet.{Packet}
use msgtrans.Registry.{RequestToken, RequestRegistry, count_send_failed}
use msgtrans.Registry.Register.{
  open_session, next_oneway_id, next_request_id, register, try_register_waiter,
}
use msgtrans.Registry.Respond.{complete_waiter, begin_respond, finish_respond}
use msgtrans.Registry.Abort.{abort_waiter, abort_request_token, abort_all}
use msgtrans.Registry.Close.{close_session_pending}
use msgtrans.Registry.Wheel.{scan_timeout_bucket}

pub data Call : Type 0 where
  opens : (sid : ℕ) → Call
  allocates_oneway : Call
  allocates : (session_id : Option ℕ) → Call
  registers : (request_id : ℕ) → (session_id : Option ℕ) → (biz_type timeout now later : ℕ) → Call
  registers_waiter : (request_id : ℕ) → (session_id : Option ℕ) → (biz_type timeout now : ℕ) → Call
  completes : (session_id : Option ℕ) → (request_id : ℕ) → Packet → Call
  begins : RequestToken → Call
  finishes : RequestToken → (write_confirmed : Bool) → Call
  aborts : (session_id : Option ℕ) → (request_id : ℕ) → Call
  aborts_token : RequestToken → Call
  aborts_all : Call
  closes : (sid : ℕ) → Call
  scans : (now : ℕ) → (clock : ℕ → ℕ) → Call
  records_send_failed : Call

unfoldable pub step : RequestRegistry → Call → RequestRegistry
step r (opens sid) = open_session r sid
step r allocates_oneway = (next_oneway_id r).1
step r (allocates session_id) = (next_request_id r session_id).1
step r (registers i s b t now later) = (register r i s b t now later).1
step r (registers_waiter i s b t now) = (try_register_waiter r i s b t now).1
step r (completes s i packet) = (complete_waiter r s i packet).1
step r (begins token) = (begin_respond r token).1
step r (finishes token write_confirmed) = (finish_respond r token write_confirmed).1
step r (aborts s i) = (abort_waiter r s i).1
step r (aborts_token token) = (abort_request_token r token).1
step r aborts_all = (abort_all r).1
step r (closes sid) = (close_session_pending r sid).1
step r (scans now clock) = (scan_timeout_bucket r now clock).1
step r records_send_failed = count_send_failed r

unfoldable pub run : RequestRegistry → List Call → RequestRegistry
run r [] = r
run r (c ∷ cs) = run (step r c) cs
