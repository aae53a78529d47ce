-- ===== src/Controller/Endpoints/Exact/Subsets.antt =====
-- The loops of getEndpoints collect exactly the address and port pairs that the subsets offer,
-- each once.
use wls_ingress.Base.{true, List, [], ◌∷◌, ◌≡◌, refl, sym, ◌∙◌, subst, inl, inr}
use wls_ingress.Base.{In}
use wls_ingress.Base.Text.{Text}
use wls_ingress.Base.Int.{itoa}
use wls_ingress.Ingress.{Endpoint, EndpointAddress, EndpointPort, EndpointSubset, ServicePort}
use wls_ingress.Controller.Endpoints.{
  Found, nothing_found, holds, target_port_of, add_ports, add_subsets,
}
use wls_ingress.Controller.Endpoints.Join.{join_host_port-injective, itoa-NoColon}
use wls_ingress.Controller.Endpoints.Collect.{
  key, Distinct, IsConsistent, nothing_found-IsConsistent, made,
}
use wls_ingress.Controller.Endpoints.Exact.{
  Selects, Offers, add_ports-IsConsistent, add_ports-holds, add_ports-adds, add_ports-sound,
}

module _ (port : ServicePort) (proto : Text) where
  add_subsets-IsConsistent :
      (ss : List EndpointSubset) (f : Found)
      → IsConsistent f
      → IsConsistent (add_subsets port proto ss f)
  unfolding add_subsets
  add_subsets-IsConsistent [] f c = c
  add_subsets-IsConsistent (s ∷ ss) f c =
      add_subsets-IsConsistent ss (add_ports port proto s.addresses s.ports f)
        (add_ports-IsConsistent port proto s.addresses s.ports f c)

  add_subsets-holds :
      (ss : List EndpointSubset) (f : Found) (k : Text)
      → holds k f.processed ≡ true
      → holds k (add_subsets port proto ss f).processed ≡ true
  unfolding add_subsets
  add_subsets-holds [] f k h = h
  add_subsets-holds (s ∷ ss) f k h =
      add_subsets-holds ss (add_ports port proto s.addresses s.ports f) k
        (add_ports-holds port proto s.addresses s.ports f k h)

  add_subsets-adds :
      (ss : List EndpointSubset) (f : Found) (s : EndpointSubset) (p : EndpointPort)
      (a : EndpointAddress)
      → In s ss
      → In p s.ports
      → Selects port proto p
      → In a s.addresses
      → holds (key (made (target_port_of port p) a)) (add_subsets port proto ss f).processed ≡ true
  unfolding add_subsets
  add_subsets-adds [] f s p a h i sel j = elim h [ ]
  add_subsets-adds (r ∷ ss) f s p a (inl same) i sel j =
      add_subsets-holds ss (add_ports port proto r.addresses r.ports f)
        (key (made (target_port_of port p) a))
        (subst
          (λ (x : EndpointSubset).
            holds (key (made (target_port_of port p) a))
              (add_ports port proto x.addresses x.ports f).processed
            ≡ true)
          same (add_ports-adds port proto s.addresses s.ports f p a i sel j))
  add_subsets-adds (r ∷ ss) f s p a (inr h) i sel j =
      add_subsets-adds ss (add_ports port proto r.addresses r.ports f) s p a h i sel j

  add_subsets-sound :
      (P : Endpoint → Type 0) (ss : List EndpointSubset) (f : Found)
      → ((e : Endpoint) → In e f.servers → P e)
      → ((s : EndpointSubset)
          → In s ss
          → (p : EndpointPort) → In p s.ports
          → Selects port proto p
          → (a : EndpointAddress) → In a s.addresses
          → P (made (target_port_of port p) a))
      → (e : Endpoint) → In e (add_subsets port proto ss f).servers
      → P e
  unfolding add_subsets
  add_subsets-sound P [] f old new = old
  add_subsets-sound P (s ∷ ss) f old new =
      add_subsets-sound P ss (add_ports port proto s.addresses s.ports f)
        (add_ports-sound port proto P s.addresses s.ports f old (new s (inl refl)))
        (λ r i. new r (inr i))

  abbrev pub collected : List EndpointSubset → List Endpoint
  collected ss = (add_subsets port proto ss nothing_found).servers

  -- The endpoints collected have distinct pairs of an address and a port.
  pub collected-Distinct : (ss : List EndpointSubset) → Distinct (collected ss)
  collected-Distinct ss =
      (add_subsets-IsConsistent ss nothing_found nothing_found-IsConsistent).distinct

  pub collected_sound :
      (ss : List EndpointSubset) (e : Endpoint) → In e (collected ss) → Offers port proto ss e
  collected_sound ss =
      add_subsets-sound (Offers port proto ss) ss nothing_found (λ e i. elim i [ ])
        (λ s h p i sel a j. record {
          subset = s;
          listed = h;
          ep_port = p;
          of_subset = i;
          selected = sel;
          ep_address = a;
          at = j;
          address = refl;
          printed = refl;
        })

  pub collected_complete :
      (ss : List EndpointSubset) (e : Endpoint)
      → Offers port proto ss e
      → (f : Endpoint) × In f (collected ss) × (f.address ≡ e.address) × (f.port ≡ e.port)
  collected_complete ss e o =
      let c = add_subsets-IsConsistent ss nothing_found nothing_found-IsConsistent in
      let held =
        add_subsets-adds ss nothing_found o.subset o.ep_port o.ep_address o.listed o.of_subset
          o.selected o.at in
      let (f, i, same) = c.backed (key (made (target_port_of port o.ep_port) o.ep_address)) held in
      let (n, digits) = c.printed f i in
      let (address, printed) =
        join_host_port-injective f.address o.ep_address.ip f.port
          (itoa (target_port_of port o.ep_port)) (rw digits (itoa-NoColon n))
          (itoa-NoColon (target_port_of port o.ep_port)) same in
      (f, i, address ∙ sym o.address, printed ∙ sym o.printed)
