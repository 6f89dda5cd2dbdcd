-- ===== src/Server/Live.antt =====
-- transport/transport_server.rs: the sessions that are tracked, and those that are being added.
use msgtrans.Prelude.{
  ℕ, zero, suc, ◌≡◌, refl, List, [], ◌∷◌, ◌++◌, map, some, Bool, false, ◌||◌, ◌==◌, arith,
  get_elem?, set, erase,
}
use msgtrans.Prelude.Map.{nat_eq}
use msgtrans.Server.{Session, Infra, tracking, registering, Server}
use msgtrans.Server.Listen.{cancel_if}

-- A session of this id is tracked.
abbrev pub tracks : List Session → ℕ → Bool
tracks [] k = false
tracks (x ∷ xs) k = (x.id == k) || tracks xs k

-- The task has registered a session of this id, and its supervisor is not let go yet.
abbrev pub adds : Infra → ℕ → Bool
adds (tracking x) k = x.id == k
adds (registering x) k = x.id == k
adds _ k = false

abbrev pub is_added : List Infra → ℕ → Bool
is_added [] k = false
is_added (t ∷ ts) k = adds t k || is_added ts k

abbrev pub is_live : Server → ℕ → Bool
is_live s k = tracks s.sessions k || is_added s.infra k

pub is_added-set :
    (ts : List Infra) (i : ℕ) (old new : Infra) (k : ℕ)
    → get_elem? ts i ≡ some old
    → (is_added (set ts i new) k || adds old k) ≡ (is_added ts k || adds new k)
is_added-set [] i old new k h = cc
is_added-set (t ∷ ts) zero old new k h =
    let e : t ≡ old = cc in rw e (or_swap (adds new k) (is_added ts k) (adds old k))
  where
    or_swap : (a b c : Bool) → ((a || b) || c) ≡ ((c || b) || a)
    or_swap a b c = ground arith
is_added-set (t ∷ ts) (suc i) old new k h =
    let ih = is_added-set ts i old new k h in ground (arith, ih)

pub is_added-same :
    (ts : List Infra) (i : ℕ) (old new : Infra) (k : ℕ)
    → get_elem? ts i ≡ some old
    → adds new k ≡ adds old k
    → is_added (set ts i new) k ≡ is_added ts k
is_added-same [] i old new k h e = cc
is_added-same (t ∷ ts) zero old new k h e = let f : t ≡ old = cc in rw (f, e) refl
is_added-same (t ∷ ts) (suc i) old new k h e = rw (is_added-same ts i old new k h e) refl

pub is_added-append :
    (ts : List Infra) (t : Infra) (k : ℕ) → is_added (ts ++ t ∷ []) k ≡ (is_added ts k || adds t k)
is_added-append [] t k = ground arith
is_added-append (x ∷ xs) t k = ground (arith, is_added-append xs t k)

pub tracks-append :
    (xs : List Session) (x : Session) (k : ℕ)
    → tracks (xs ++ x ∷ []) k ≡ (tracks xs k || (x.id == k))
tracks-append [] x k = ground arith
tracks-append (y ∷ ys) x k = ground (arith, tracks-append ys x k)

pub tracks-set :
    (xs : List Session) (i : ℕ) (old new : Session) (k : ℕ)
    → get_elem? xs i ≡ some old
    → new.id ≡ old.id
    → tracks (set xs i new) k ≡ tracks xs k
tracks-set [] i old new k h e = cc
tracks-set (x ∷ xs) zero old new k h e = let f : x ≡ old = cc in rw (f, e) refl
tracks-set (x ∷ xs) (suc i) old new k h e = rw (tracks-set xs i old new k h e) refl

pub tracks-erase :
    (xs : List Session) (i : ℕ) (x : Session) (k : ℕ)
    → get_elem? xs i ≡ some x
    → (x.id == k) ≡ false
    → tracks (erase xs i) k ≡ tracks xs k
tracks-erase [] i x k h e = cc
tracks-erase (y ∷ ys) zero x k h e = let f : y ≡ x = cc in rw (f, e) refl
tracks-erase (y ∷ ys) (suc i) x k h e = rw (tracks-erase ys i x k h e) refl

pub tracks-cancel_if :
    (xs : List Session) (id k : ℕ) → tracks (map (cancel_if id) xs) k ≡ tracks xs k
tracks-cancel_if [] id k = refl
tracks-cancel_if (x ∷ xs) id k = rw (tracks-cancel_if xs id k) refl
