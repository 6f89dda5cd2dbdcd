-- ===== src/Prelude/Map.antt =====
-- A concurrent map, seen by one thread at a time: an association list over keys with a test for
-- equality. `insert` replaces or adds, as the source's maps do.
use Prim.Native.Nat.{ℕ, suc}
use mathlib.Core.Path.{◌≡◌, refl, subst}
use mathlib.Core.Logic.{◌↔◌, inl, inr}
use mathlib.Core.Bool.{Bool, true, false, ◌||◌}
use mathlib.Core.Option.{Option, none, some}
use mathlib.Core.List.{List, [], ◌∷◌}
use native.Mathlib.Omega.{arith}
use msgtrans.Prelude.Tests.{if◌then◌else◌, ◌==◌, ==_iff, Bool-cases}
use msgtrans.Prelude.Lists.{length}

pub record Eq {ℓ} (A : Type ℓ) : Type ℓ where
  pub beq : A → A → Bool
  pub beq_iff : (a b : A) → (beq a b ≡ true) ↔ (a ≡ b)

abbrev nat_beq : ℕ → ℕ → Bool
nat_beq a b = a == b

instance abbrev pub nat_eq : Eq ℕ
nat_eq = record { beq = nat_beq; beq_iff = ==_iff }

abbrev pub Map {ℓ κ} : Type ℓ → Type κ → Type (ℓ ⊔ κ)
Map K V = List (K × V)

abbrev pub is_some {μ} : {A : Type μ} → Option A → Bool
is_some none = false
is_some (some a) = true

-- The key is in the list.
abbrev pub has {ℓ} : {K : Type ℓ} ⦃e : Eq K⦄ → List K → K → Bool
has [] j = false
has ⦃e⦄ (k ∷ ks) j = e.beq k j || has ks j

module _ {ℓ κ} {K : Type ℓ} {V : Type κ} ⦃e : Eq K⦄ where
  unfoldable pub get : K → Map K V → Option V
  get k [] = none
  get k ((j, v) ∷ m) = if e.beq j k then some v else get k m

  unfoldable pub insert : K → V → Map K V → Map K V
  insert k v [] = (k, v) ∷ []
  insert k v ((j, w) ∷ m) = if e.beq j k then (k, v) ∷ m else (j, w) ∷ insert k v m

  unfoldable pub remove : K → Map K V → Map K V
  remove k [] = []
  remove k ((j, v) ∷ m) = let rest = remove k m in if e.beq j k then rest else (j, v) ∷ rest

  pub get-insert :
      (k j : K) (v : V) (m : Map K V)
      → get j (insert k v m) ≡ (if e.beq k j then some v else get j m)
  unfolding get insert
  get-insert k j v [] = refl
  get-insert k j v ((i, w) ∷ m) =
      ground (arith, e.beq_iff k j, e.beq_iff i k, e.beq_iff i j, get-insert k j v m)

  pub get-remove :
      (k j : K) (m : Map K V) → get j (remove k m) ≡ (if e.beq k j then none else get j m)
  unfolding get remove
  get-remove k j [] = ground arith
  get-remove k j ((i, w) ∷ m) =
      ground (arith, e.beq_iff k j, e.beq_iff i k, e.beq_iff i j, get-remove k j m)

  -- Every key stands once.
  abbrev pub IsDistinct : Map K V → Type κ
  IsDistinct [] = Unit
  IsDistinct ((k, v) ∷ m) = (get k m ≡ none) × IsDistinct m

  pub length-insert_vacant :
      (k : K) (v : V) (m : Map K V) → get k m ≡ none → length (insert k v m) ≡ suc (length m)
  unfolding get insert
  length-insert_vacant k v [] h = refl
  length-insert_vacant k v ((j, w) ∷ m) h = ground (arith, length-insert_vacant k v m)

  pub length-insert_occupied :
      (k : K) (v w : V) (m : Map K V) → get k m ≡ some w → length (insert k v m) ≡ length m
  unfolding get insert
  length-insert_occupied k v w [] h = ground arith
  length-insert_occupied k v w ((j, x) ∷ m) h = ground (arith, length-insert_occupied k v w m)

  length-remove_vacant : (k : K) (m : Map K V) → get k m ≡ none → length (remove k m) ≡ length m
  unfolding get remove
  length-remove_vacant k [] h = refl
  length-remove_vacant k ((j, x) ∷ m) h = ground (arith, length-remove_vacant k m)

  pub length-remove_occupied :
      (k : K) (w : V) (m : Map K V)
      → IsDistinct m
      → get k m ≡ some w
      → suc (length (remove k m)) ≡ length m
  unfolding get remove
  length-remove_occupied k w [] d h = ground arith
  length-remove_occupied k w ((j, x) ∷ m) d h =
      ground (arith, e.beq_iff j k, length-remove_vacant k m, length-remove_occupied k w m d.1)

  pub insert-IsDistinct : (k : K) (v : V) (m : Map K V) → IsDistinct m → IsDistinct (insert k v m)
  unfolding get insert
  insert-IsDistinct k v [] d = (refl, tt)
  insert-IsDistinct k v ((j, w) ∷ m) d =
      ground (arith, e.beq_iff j k, e.beq_iff k j, get-insert k j v m, insert-IsDistinct k v m d.1)

  pub remove-IsDistinct : (k : K) (m : Map K V) → IsDistinct m → IsDistinct (remove k m)
  unfolding get remove
  remove-IsDistinct k [] d = tt
  remove-IsDistinct k ((j, w) ∷ m) d = ground (arith, get-remove k j m, remove-IsDistinct k m d.1)

  pub remove-insert : (k : K) (v : V) (m : Map K V) → remove k (insert k v m) ≡ remove k m
  unfolding insert remove
  remove-insert k v [] = ground (arith, e.beq_iff k k)
  remove-insert k v ((j, w) ∷ m) = ground (arith, e.beq_iff k k, e.beq_iff j k, remove-insert k v m)

  abbrev pub keys : Map K V → List K
  keys [] = []
  keys ((k, v) ∷ m) = k ∷ keys m

  pub has-keys : (m : Map K V) (j : K) → has (keys m) j ≡ is_some (get j m)
  unfolding get
  has-keys [] j = refl
  has-keys ((k, v) ∷ m) j = ground (arith, has-keys m j)

  -- A property of every pair.
  abbrev pub Every {μ} : (K → V → Type μ) → Map K V → Type μ
  Every P [] = Unit
  Every P ((k, v) ∷ m) = P k v × Every P m

  pub Every-get {μ} :
      (P : K → V → Type μ) (k : K) (v : V) (m : Map K V) → Every P m → get k m ≡ some v → P k v
  unfolding get
  Every-get P k v [] h g = cc
  Every-get P k v ((j, w) ∷ m) h g = elim (Bool-cases (e.beq j k)) [
    | inl hit ↦
        let same : j ≡ k = (e.beq_iff j k).0 hit in
        let w_eq : w ≡ v = ground arith in subst (λ x. P k x) w_eq (subst (λ x. P x w) same h.0)
    | inr miss ↦ Every-get P k v m h.1 (ground arith)
  ]

  pub Every-insert {μ} :
      (P : K → V → Type μ) (k : K) (v : V) (m : Map K V)
      → Every P m
      → P k v
      → Every P (insert k v m)
  unfolding insert
  Every-insert P k v [] h p = (p, tt)
  Every-insert P k v ((j, w) ∷ m) h p = elim (Bool-cases (e.beq j k)) [
    | inl hit ↦ rw hit (p, h.1)
    | inr miss ↦ rw miss (h.0, Every-insert P k v m h.1 p)
  ]

  pub Every-remove {μ} :
      (P : K → V → Type μ) (k : K) (m : Map K V) → Every P m → Every P (remove k m)
  unfolding remove
  Every-remove P k [] h = tt
  Every-remove P k ((j, w) ∷ m) h = elim (Bool-cases (e.beq j k)) [
    | inl hit ↦ rw hit (Every-remove P k m h.1)
    | inr miss ↦ rw miss (h.0, Every-remove P k m h.1)
  ]
