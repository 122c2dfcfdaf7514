-- ===== src/Bridge/PortForward/Channels.antt =====
-- pkg/docker-proxy/mutagen-bridge/port-forward.go: the stop channels of the bindings. Closing a
-- channel twice panics in Go, so each channel has to be held or closed once.
use remote_docker_agent.Prelude.{
  ℕ, suc, ◌+◌, ◌≤◌, ◌≡◌, refl, inl, inr, true, false, ◌&&◌, some, List, [], ◌∷◌, ◌++◌, length,
  length-append, ◌==◌, leb, ltb, if◌then◌else◌, Bool-cases, is_empty, Text, split, Eq, eq_text,
  nat_eq, Map, lookup, insert, delete, arith,
}
use remote_docker_agent.Bridge.PortForward.{
  PortBinding, ContainerPorts, PortForwardManager, host_bindings, port_bindings, port_and_protocol,
  is_closed, close_all, bindings_at, all_bindings,
}

-- How many bindings hold a channel, and how often it was closed.
unfoldable pub uses : ℕ → List PortBinding → ℕ
uses c [] = 0
uses c (b ∷ bs) = (if b.stop_ch == c then 1 else 0) + uses c bs

unfoldable pub times : ℕ → List ℕ → ℕ
times c [] = 0
times c (d ∷ ds) = (if d == c then 1 else 0) + times c ds

unfoldable pub held : ℕ → PortForwardManager → ℕ
held c m =
    times c m.closed
    + (uses c (all_bindings m.containers) + uses c (all_bindings m.container_ports))

-- A channel is held by one binding or closed once; one that is not made yet is neither.
abbrev pub OwnsChannels : PortForwardManager → Type 0
OwnsChannels m = (c : ℕ) → (held c m ≤ 1) × (m.made ≤ c → held c m ≡ 0)

pub uses-append : (c : ℕ) (bs cs : List PortBinding) → uses c (bs ++ cs) ≡ uses c bs + uses c cs
unfolding uses
uses-append c [] cs = omega arith
uses-append c (b ∷ bs) cs = let h = uses-append c bs cs in omega arith

unfoldable pub fresh : ℕ → ℕ → ℕ → ℕ
fresh c next n = if leb next c && ltb c (next + n) then 1 else 0

fresh-suc :
    (c next n : ℕ) → (if next == c then 1 else 0) + fresh c (suc next) n ≡ fresh c next (suc n)
unfolding fresh
fresh-suc c next n = ground arith

fresh-zero : (c next : ℕ) → 0 ≡ fresh c next 0
unfolding fresh
fresh-zero c next = ground arith

fresh-split : (c next n k : ℕ) → fresh c next n + fresh c (next + n) k ≡ fresh c next (n + k)
unfolding fresh
fresh-split c next n k = ground arith

uses-host_bindings :
    (c next : ℕ) (target : Text × Text) (ports : List Text)
    → uses c (host_bindings next target ports)
      ≡ fresh c next (length (host_bindings next target ports))
unfolding uses host_bindings
uses-host_bindings c next target [] = fresh-zero c next
uses-host_bindings c next target (p ∷ ports) = elim (Bool-cases (is_empty p)) [
  | inl e ↦ rw (e, host_bindings, uses-host_bindings c next target ports)
  | inr e ↦ rw (
    e,
    host_bindings,
    uses-host_bindings c (suc next) target ports,
    fresh-suc c next (length (host_bindings (suc next) target ports)),
  )
]

pub uses-port_bindings :
    (c next : ℕ) (host_ports : List (Text × List Text))
    → uses c (port_bindings next host_ports) ≡ fresh c next (length (port_bindings next host_ports))
unfolding port_bindings uses
uses-port_bindings c next [] = fresh-zero c next
uses-port_bindings c next ((port, ports) ∷ rest) =
    let bs = host_bindings next (port_and_protocol port (split b'/' port)) ports in
    let more = port_bindings (next + length bs) rest in
    rw (
      uses-append c bs more,
      length-append bs more,
      uses-host_bindings c next (port_and_protocol port (split b'/' port)) ports,
      uses-port_bindings c (next + length bs) rest,
      fresh-split c next (length bs) (length more),
    )

module _ {ℓ} {K : Type ℓ} ⦃e : Eq K⦄ where
  pub uses-insert :
      (c : ℕ) (k : K) (v : ContainerPorts) (m : Map K ContainerPorts)
      → uses c (all_bindings (insert k v m)) ≤ uses c v.bindings + uses c (all_bindings m)
  unfolding all_bindings insert uses
  uses-insert c k v [] = let h = uses-append c v.bindings [] in omega arith
  uses-insert c k v ((j, w) ∷ m) =
      let h = uses-append c w.bindings (all_bindings m) in
      let i = uses-append c w.bindings (all_bindings (insert k v m)) in
      let n = uses-append c v.bindings (all_bindings m) in
      let r = uses-insert c k v m in ground arith

  pub uses-delete :
      (c : ℕ) (k : K) (m : Map K ContainerPorts)
      → uses c (all_bindings (delete k m)) + uses c (bindings_at (lookup k m))
        ≤ uses c (all_bindings m)
  unfolding all_bindings delete lookup uses bindings_at
  uses-delete c k [] = ground arith
  uses-delete c k ((j, w) ∷ m) =
      let h = uses-append c w.bindings (all_bindings m) in
      let i = uses-append c w.bindings (all_bindings (delete k m)) in
      let r = uses-delete c k m in ground arith

is_closed-times : (c : ℕ) (ds : List ℕ) → is_closed c ds ≡ true → 1 ≤ times c ds
unfolding is_closed times
is_closed-times c [] h = cc
is_closed-times c (d ∷ ds) h = elim (Bool-cases (d == c)) [
  | inl q ↦ ground arith
  | inr q ↦ let r = is_closed-times c ds in ground arith
]

not-closed :
    (c n : ℕ) (ds : List ℕ)
    → times c ds + ((if c == c then 1 else 0) + n) ≤ 1
    → is_closed c ds ≡ false
not-closed c n ds h = elim (Bool-cases (is_closed c ds)) [
  | inl q ↦ let r = is_closed-times c ds q in ground arith
  | inr q ↦ q
]

-- Channels that are held once and not closed yet can all be closed.
pub close_all-total :
    (bs : List PortBinding) (closed : List ℕ)
    → ((c : ℕ) → times c closed + uses c bs ≤ 1)
    → (left : List ℕ) × (close_all bs closed ≡ some left)
      × ((c : ℕ) → times c left ≡ times c closed + uses c bs)
unfolding close_all uses times
close_all-total [] closed h = (closed, refl, λ c. omega arith)
close_all-total (b ∷ bs) closed h =
    let q = not-closed b.stop_ch (uses b.stop_ch bs) closed (h b.stop_ch) in
    let r = close_all-total bs (b.stop_ch ∷ closed) (λ c. let i = h c in omega arith) in
    (r.0, (rw (q, close_all, r.1)), λ c. let i = r.2 c in omega arith)
