-- ===== src/Bridge/Store.antt =====
-- pkg/docker-proxy/mutagen-bridge: what both managers keep, as a specification: the entries of the
-- requests that are under way and those of the containers, as functions of their keys.
use remote_docker_agent.Prelude.{
  ℕ, ◌≡◌, Bool, true, false, Option, none, some, List, [], ◌∷◌, ◌==◌, if◌then◌else◌, length, Text,
  is_empty, text_eq, Eq, Map, lookup, insert, delete, lookup-insert, lookup-delete, arith,
}
use remote_docker_agent.ContainerId.{compress_container_id}

pub record Store {ℓ} (E : Type ℓ) : Type ℓ where
  pub pending : ℕ → Option (List E)
  pub live : Text → Option (List E)

-- The operations; `D` is what a request says of a container.
pub data Operation {ℓ} (D : Type ℓ) : Type ℓ where
  begin_request : ℕ → D → Operation D
  end_request : ℕ → Text → Operation D
  store_container : Text → D → Operation D
  teardown : Text → Operation D
  teardown_all : Operation D

abbrev pub with_request {ℓ} : {V : Type ℓ} → ℕ → V → (ℕ → V) → ℕ → V
with_request req v f other = if req == other then v else f other

abbrev pub with_container {ℓ} : {V : Type ℓ} → Text → V → (Text → V) → Text → V
with_container id v f other = if text_eq id other then v else f other

unfoldable pub is_packed : Option Text → Bool
is_packed none = false
is_packed (some label) = true

-- A map that holds a function's values, seen through `view`.
abbrev pub viewed {ℓ κ} : {V : Type ℓ} {W : Type κ} → (V → W) → Option V → Option W
viewed view none = none
viewed view (some v) = some (view v)

module _ {ℓ κ ι} {K : Type ι} {V : Type ℓ} {W : Type κ} ⦃e : Eq K⦄ (view : V → W) where
  abbrev pub Shows : Map K V → (K → Option W) → Type (ι ⊔ κ)
  Shows m f = (k : K) → viewed view (lookup k m) ≡ f k

  pub insert-Shows :
      (key : K) (v : V) (m : Map K V) (f : K → Option W)
      → Shows m f
      → Shows (insert key v m) (λ k. if e.beq key k then some (view v) else f k)
  insert-Shows key v m f h k = rw (lookup-insert key k v m) (let i = h k in ground arith)

  pub delete-Shows :
      (key : K) (m : Map K V) (f : K → Option W)
      → Shows m f
      → Shows (delete key m) (λ k. if e.beq key k then none else f k)
  delete-Shows key m f h k = rw (lookup-delete key k m) (let i = h k in ground arith)

module _ {ℓ κ} {D : Type ℓ} {E : Type κ} (entries : D → List E) where
  abbrev pub named_live : Text → Option (List E) → (Text → Option (List E)) → Text → Option (List E)
  named_live id none live = live
  named_live id (some es) live = if is_empty id then live else with_container id (some es) live

  -- A request for nothing is not kept; an empty id names no container; a container whose id cannot
  -- be packed cannot be taken down.
  abbrev pub store_step : Operation D → Store E → Option (Store E)
  store_step (begin_request req d) s = some (
      if length (entries d) == 0
      then s
      else record { pending = with_request req (some (entries d)) s.pending; live = s.live })
  store_step (end_request req id) s = some (record {
    pending = with_request req none s.pending;
    live = named_live id (s.pending req) s.live;
  })
  store_step (store_container id d) s = some (
      if length (entries d) == 0
      then s
      else record { pending = s.pending; live = with_container id (some (entries d)) s.live })
  store_step (teardown id) s =
      if is_packed (compress_container_id id)
      then some (record { pending = s.pending; live = with_container id none s.live })
      else none
  store_step teardown_all s = some (record { pending = s.pending; live = λ _. none })

-- Runs of operations.
abbrev pub run {ℓ κ} : {O : Type ℓ} {M : Type κ} → (O → M → Option M) → List O → M → Option M
run step [] m = some m
run step (op ∷ ops) m = elim (step op m) [ none ↦ none | some after ↦ run step ops after ]

-- Both stop, or both give states in the relation.
pub data Agree {ℓ κ ι} {M : Type ℓ} {N : Type κ} (R : M → N → Type ι)
    : Option M → Option N → Type (ℓ ⊔ κ ⊔ ι) where
  both_stop : Agree R none none
  both_go : {m : M} {n : N} → R m n → Agree R (some m) (some n)

Agree-then {ℓ κ ι} :
    {M : Type ℓ} {N : Type κ} (R : M → N → Type ι) (f : M → Option M) (g : N → Option N)
    {x : Option M} {y : Option N}
    → Agree R x y
    → ((m : M) (n : N) → R m n → Agree R (f m) (g n))
    → Agree R (elim x [ none ↦ none | some m ↦ f m ]) (elim y [ none ↦ none | some n ↦ g n ])
Agree-then R f g both_stop h = both_stop
Agree-then R f g (both_go r) h = h _ _ r

pub run-Agree {ℓ κ ι ο} :
    {O : Type ο} {M : Type ℓ} {N : Type κ} (R : M → N → Type ι) (step : O → M → Option M)
    (spec_step : O → N → Option N)
    → ((op : O) (m : M) (n : N) → R m n → Agree R (step op m) (spec_step op n))
    → (ops : List O) (m : M) (n : N) → R m n
    → Agree R (run step ops m) (run spec_step ops n)
run-Agree R step spec_step h [] m n r = both_go r
run-Agree R step spec_step h (op ∷ ops) m n r =
    Agree-then R (run step ops) (run spec_step ops) (h op m n r)
      (λ m' n' r'. run-Agree R step spec_step h ops m' n' r')
