-- ===== src/Server/Listed.antt =====
-- transport/transport_server.rs: what the maps of a server say of one session id, and what the
-- listeners' turns and `remove_session` make of it.
use msgtrans.Prelude.{implies, ℕ, ◌≡◌, refl, some, true, arith, get_elem?, set}
use msgtrans.Prelude.Map.{nat_eq, get, get-insert, get-remove, is_some}
use msgtrans.Server.{
  Infra, scanner, accepting, finished, gating, inserting, tracking, registering, rechecking, Server,
  remove_session,
}
use msgtrans.Server.Listen.{
  Accepted, accepts, fails, sees_cancel, panics, accept_turn, infra_turn, spawn_session,
}
use msgtrans.Server.Live.{
  tracks, adds, is_live, is_added-set, is_added-same, tracks-append, tracks-cancel_if,
}

-- What the maps say of one id.
pub record Listed (k : ℕ) (s : Server) : Type 0 where
  pub transports_ok : implies (is_some (get k s.transports)) (is_live s k) ≡ true
  pub handles_ok : implies (is_some (get k s.session_handles)) (is_live s k) ≡ true
  pub cancels_ok : implies (is_some (get k s.session_cancels)) (tracks s.sessions k) ≡ true

-- One task of the infrastructure is replaced by one that adds the same sessions.
pub replaces :
    (s : Server) (i : ℕ) (old new : Infra) (k : ℕ)
    → get_elem? s.infra i ≡ some old
    → adds new k ≡ adds old k
    → Listed k s
    → Listed k (record s { infra = set s.infra i new })
replaces s i old new k h e l = ground (arith, is_added-same s.infra i old new k h e)

accept-Listed :
    (s : Server) (i : ℕ) (a : Accepted) (k : ℕ)
    → get_elem? s.infra i ≡ some accepting
    → Listed k s
    → Listed k (accept_turn s i a)
unfolding accept_turn
accept-Listed s i (accepts piped) k h l =
    ground (arith, is_added-set s.infra i accepting (gating s.session_id_generator piped) k h)
accept-Listed s i fails k h l = ground (arith, is_added-set s.infra i accepting finished k h)
accept-Listed s i sees_cancel k h l = ground (arith, is_added-set s.infra i accepting finished k h)
accept-Listed s i panics k h l = ground (arith, is_added-set s.infra i accepting finished k h)

pub works-Listed :
    (s : Server) (i : ℕ) (task : Infra) (a : Accepted) (k : ℕ)
    → get_elem? s.infra i ≡ some task
    → Listed k s
    → Listed k (infra_turn s i task a)
unfolding infra_turn
works-Listed s i scanner panics k h l = ground (arith, is_added-set s.infra i scanner finished k h)
works-Listed s i scanner (accepts p) k h l =
    ground (arith, is_added-set s.infra i scanner finished k h)
works-Listed s i scanner fails k h l = ground (arith, is_added-set s.infra i scanner finished k h)
works-Listed s i scanner sees_cancel k h l =
    ground (arith, is_added-set s.infra i scanner finished k h)
works-Listed s i accepting a k h l = accept-Listed s i a k h l
works-Listed s i finished a k h l = l
works-Listed s i (gating id piped) a k h l = ground (
  arith,
  is_added-set s.infra i (gating id piped) (inserting id piped) k h,
  is_added-set s.infra i (gating id piped) accepting k h,
)
works-Listed s i (inserting id piped) a k h l = ground (
  arith,
  is_added-set s.infra i (inserting id piped) (tracking (spawn_session id piped)) k h,
  get-insert id k tt s.transports,
  get-insert id k tt s.session_handles,
)
works-Listed s i (tracking x) a k h l = replaces s i (tracking x) (registering x) k h refl l
works-Listed s i (registering x) a k h l = ground (
  arith,
  is_added-set s.infra i (registering x) (rechecking x.id) k h,
  tracks-append s.sessions x k,
  get-insert x.id k tt s.session_cancels,
)
works-Listed s i (rechecking id) a k h l =
    ground (
      arith,
      is_added-set s.infra i (rechecking id) accepting k h,
      tracks-cancel_if s.sessions id k,
    )

pub removes-Listed : (s : Server) (id k : ℕ) → Listed k s → Listed k (remove_session s id)
unfolding remove_session
removes-Listed s id k l =
    ground (arith, get-remove id k s.transports, get-remove id k s.session_handles)
