-- ===== src/Controller/Endpoints/Exact.antt =====
-- The loops of getEndpoints over the ports and the addresses of a subset.
pub mod Subsets
use wls_ingress.Base.{true, false, List, [], ◌∷◌, ◌≡◌, refl, sym, ◌∙◌, subst, inl, inr}
use wls_ingress.Base.{Bool-cases, ◌⊎◌, In}
use wls_ingress.Base.Text.{Text, ◌==◌, ==_iff}
use wls_ingress.Base.Int.{itoa, not_positive}
use wls_ingress.Ingress.{Endpoint, EndpointAddress, EndpointPort, EndpointSubset, ServicePort}
use wls_ingress.Controller.Endpoints.{
  Found, nothing_found, holds, add_addresses, target_port_of, add_port, add_ports, add_subsets,
}
use wls_ingress.Controller.Endpoints.Join.{join_host_port-injective, itoa-NoColon}
use wls_ingress.Controller.Endpoints.Collect.{
  key, Distinct, IsConsistent, nothing_found-IsConsistent, made, add_addresses-IsConsistent,
  add_addresses-holds, add_addresses-adds, add_addresses-sound,
}

module _ (port : ServicePort) (proto : Text) where
  -- A port of a subset that the service port selects.
  pub record Selects (p : EndpointPort) : Type 0 where
    pub protocol : p.protocol ≡ proto
    pub positive : not_positive (target_port_of port p) ≡ false

  -- An address and a port of one subset that give the endpoint its address and port.
  pub record Offers (subsets : List EndpointSubset) (e : Endpoint) : Type 0 where
    pub subset : EndpointSubset
    pub listed : In subset subsets
    pub ep_port : EndpointPort
    pub of_subset : In ep_port subset.ports
    pub selected : Selects ep_port
    pub ep_address : EndpointAddress
    pub at : In ep_address subset.addresses
    pub address : e.address ≡ ep_address.ip
    pub printed : e.port ≡ itoa (target_port_of port ep_port)

  skipped :
      (addrs : List EndpointAddress) (p : EndpointPort) (f : Found)
      → (add_port port proto addrs p f ≡ f)
        ⊎ (Selects p
            × (add_port port proto addrs p f ≡ add_addresses (target_port_of port p) addrs f))
  unfolding add_port
  skipped addrs p f = elim (Bool-cases (p.protocol == proto)) [
    | inr other ↦ inl (rw other)
    | inl same ↦ elim (Bool-cases (not_positive (target_port_of port p))) [
      | inl zero ↦ inl (rw (same, zero))
      | inr fits ↦
          inr (
            record { protocol = (==_iff p.protocol proto).0 same; positive = fits },
            rw (same, fits),
          )
    ]
  ]

  selected_runs :
      (addrs : List EndpointAddress) (p : EndpointPort) (f : Found)
      → Selects p
      → add_port port proto addrs p f ≡ add_addresses (target_port_of port p) addrs f
  unfolding add_port
  selected_runs addrs p f s = rw ((==_iff p.protocol proto).1 s.protocol, s.positive)

  add_port-IsConsistent :
      (addrs : List EndpointAddress) (p : EndpointPort) (f : Found)
      → IsConsistent f
      → IsConsistent (add_port port proto addrs p f)
  add_port-IsConsistent addrs p f c = elim (skipped addrs p f) [
    | inl e ↦ rw e c
    | inr (s, e) ↦ rw e (add_addresses-IsConsistent (target_port_of port p) addrs f c)
  ]

  add_port-holds :
      (addrs : List EndpointAddress) (p : EndpointPort) (f : Found) (k : Text)
      → holds k f.processed ≡ true
      → holds k (add_port port proto addrs p f).processed ≡ true
  add_port-holds addrs p f k h = elim (skipped addrs p f) [
    | inl e ↦ rw e h
    | inr (s, e) ↦ rw e (add_addresses-holds (target_port_of port p) addrs f k h)
  ]

  pub add_ports-IsConsistent :
      (addrs : List EndpointAddress) (ps : List EndpointPort) (f : Found)
      → IsConsistent f
      → IsConsistent (add_ports port proto addrs ps f)
  unfolding add_ports
  add_ports-IsConsistent addrs [] f c = c
  add_ports-IsConsistent addrs (p ∷ ps) f c =
      add_ports-IsConsistent addrs ps (add_port port proto addrs p f)
        (add_port-IsConsistent addrs p f c)

  pub add_ports-holds :
      (addrs : List EndpointAddress) (ps : List EndpointPort) (f : Found) (k : Text)
      → holds k f.processed ≡ true
      → holds k (add_ports port proto addrs ps f).processed ≡ true
  unfolding add_ports
  add_ports-holds addrs [] f k h = h
  add_ports-holds addrs (p ∷ ps) f k h =
      add_ports-holds addrs ps (add_port port proto addrs p f) k (add_port-holds addrs p f k h)

  pub add_ports-adds :
      (addrs : List EndpointAddress) (ps : List EndpointPort) (f : Found) (p : EndpointPort)
      (a : EndpointAddress)
      → In p ps
      → Selects p
      → In a addrs
      → holds (key (made (target_port_of port p) a)) (add_ports port proto addrs ps f).processed
        ≡ true
  unfolding add_ports
  add_ports-adds addrs [] f p a i s j = elim i [ ]
  add_ports-adds addrs (q ∷ ps) f p a (inl same) s j =
      add_ports-holds addrs ps (add_port port proto addrs q f)
        (key (made (target_port_of port p) a))
        (rw (← same, selected_runs addrs p f s)
          (add_addresses-adds (target_port_of port p) addrs f a j))
  add_ports-adds addrs (q ∷ ps) f p a (inr i) s j =
      add_ports-adds addrs ps (add_port port proto addrs q f) p a i s j

  pub add_ports-sound :
      (P : Endpoint → Type 0) (addrs : List EndpointAddress) (ps : List EndpointPort) (f : Found)
      → ((e : Endpoint) → In e f.servers → P e)
      → ((p : EndpointPort)
          → In p ps
          → Selects p
          → (a : EndpointAddress) → In a addrs
          → P (made (target_port_of port p) a))
      → (e : Endpoint) → In e (add_ports port proto addrs ps f).servers
      → P e
  unfolding add_ports
  add_ports-sound P addrs [] f old new = old
  add_ports-sound P addrs (p ∷ ps) f old new =
      add_ports-sound P addrs ps (add_port port proto addrs p f)
        (λ e i. elim (skipped addrs p f) [
          | inl same ↦ old e (rw same at i)
          | inr (s, same) ↦
              add_addresses-sound (target_port_of port p) P addrs f old (new p (inl refl) s) e
                (rw same at i)
        ])
        (λ q i. new q (inr i))
