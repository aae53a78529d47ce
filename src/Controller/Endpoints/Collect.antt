-- ===== src/Controller/Endpoints/Collect.antt =====
-- One address after another: the loops of getEndpoints over the addresses of a subset.
use wls_ingress.Base.{true, false, List, [], ◌∷◌, ◌++◌, ◌≡◌, refl, inl, inr}
use wls_ingress.Base.{arith, Bool-cases, In}
use wls_ingress.Base.{In-append_left, In-append_right, In-append_cases}
use wls_ingress.Base.Text.{Text, ◌==◌, ==_iff, ==_refl}
use wls_ingress.Base.Int.{ℤ, itoa}
use wls_ingress.Ingress.{Endpoint, EndpointAddress}
use wls_ingress.Controller.Endpoints.{
  Found, nothing_found, holds, join_host_port, add_address, add_addresses,
}

abbrev pub key : Endpoint → Text
key e = join_host_port e.address e.port

-- No two endpoints of the list have the same address and port.
abbrev pub Distinct : List Endpoint → Type 0
Distinct [] = Unit
Distinct (e ∷ es) =
    ((f : Endpoint) → In f es → ¬ ((e.address ≡ f.address) × (e.port ≡ f.port))) × Distinct es

-- The ports are printed integers, each key processed belongs to an endpoint and the other way
-- round, and no two endpoints are the same.
pub record IsConsistent (f : Found) : Type 0 where
  pub printed : (e : Endpoint) → In e f.servers → (n : ℤ) × (e.port ≡ itoa n)
  pub known : (e : Endpoint) → In e f.servers → holds (key e) f.processed ≡ true
  pub backed :
      (k : Text) → holds k f.processed ≡ true → (e : Endpoint) × In e f.servers × (key e ≡ k)
  pub distinct : Distinct f.servers

pub nothing_found-IsConsistent : IsConsistent nothing_found
unfolding holds
nothing_found-IsConsistent = record {
  printed = λ e h. elim h [ ];
  known = λ e h. elim h [ ];
  backed = λ k h. cc;
  distinct = tt;
}

Distinct-concat :
    (es : List Endpoint) (e : Endpoint)
    → Distinct es
    → ((f : Endpoint) → In f es → ¬ ((f.address ≡ e.address) × (f.port ≡ e.port)))
    → Distinct (es ++ e ∷ [])
Distinct-concat [] e d h = ((λ f i. elim i [ ]), tt)
Distinct-concat (x ∷ es) e d h = (
  λ f i. elim (In-append_cases f es (e ∷ []) i) [
    | inl a ↦ d.0 f a
    | inr (inl same) ↦ rw same (h x (inl refl))
    | inr (inr b) ↦ elim b [ ]
  ],
  Distinct-concat es e d.1 (λ f i. h f (inr i)),
)

abbrev pub made : ℤ → EndpointAddress → Endpoint
made t a = record { address = a.ip; port = itoa t; target = a.target_ref }

module _ (t : ℤ) (a : EndpointAddress) (f : Found) where
  appended :
      holds (key (made t a)) f.processed ≡ false
      → IsConsistent f
      → IsConsistent (record {
        servers = f.servers ++ made t a ∷ [];
        processed = key (made t a) ∷ f.processed;
      })
  unfolding holds
  appended fresh c = record {
    printed = λ e i. elim (In-append_cases e f.servers (made t a ∷ []) i) [
      | inl m ↦ c.printed e m
      | inr (inl same) ↦ (t, rw same)
      | inr (inr b) ↦ elim b [ ]
    ];
    known = λ e i. elim (In-append_cases e f.servers (made t a ∷ []) i) [
      | inl m ↦ ground (arith, c.known e m)
      | inr (inl same) ↦ rw same (ground (arith, ==_refl (key (made t a))))
      | inr (inr b) ↦ elim b [ ]
    ];
    backed = λ k h. elim (Bool-cases (key (made t a) == k)) [
      | inl same ↦ (
        made t a,
        In-append_right (made t a) f.servers (made t a ∷ []) (inl refl),
        (==_iff (key (made t a)) k).0 same,
      )
      | inr other ↦
          let (e, m, same) = c.backed k (ground arith) in
          (e, In-append_left e f.servers (made t a ∷ []) m, same)
    ];
    distinct = Distinct-concat f.servers (made t a) c.distinct (λ e m same.
        let met : holds (key (made t a)) f.processed ≡ true =
          rw (← same.0, ← same.1) (c.known e m) in
        cc);
  }

  add_address-IsConsistent : IsConsistent f → IsConsistent (add_address t a f)
  unfolding add_address
  add_address-IsConsistent c = elim (Bool-cases (holds (key (made t a)) f.processed)) [
    | inl old ↦ rw old c
    | inr fresh ↦ rw fresh (appended fresh c)
  ]

  add_address-holds :
      (k : Text) → holds k f.processed ≡ true → holds k (add_address t a f).processed ≡ true
  unfolding add_address holds
  add_address-holds k h = ground arith

  add_address-adds : holds (key (made t a)) (add_address t a f).processed ≡ true
  unfolding add_address holds
  add_address-adds = ground (arith, ==_refl (key (made t a)))

  add_address-sound :
      (P : Endpoint → Type 0)
      → ((e : Endpoint) → In e f.servers → P e)
      → P (made t a)
      → (e : Endpoint) → In e (add_address t a f).servers
      → P e
  unfolding add_address
  add_address-sound P old new e i = elim (Bool-cases (holds (key (made t a)) f.processed)) [
    | inl h ↦ old e (rw h at i)
    | inr h ↦ elim (In-append_cases e f.servers (made t a ∷ []) (rw h at i)) [
      | inl m ↦ old e m
      | inr (inl same) ↦ rw same new
      | inr (inr b) ↦ elim b [ ]
    ]
  ]

module _ (t : ℤ) where
  pub add_addresses-IsConsistent :
      (addrs : List EndpointAddress) (f : Found)
      → IsConsistent f
      → IsConsistent (add_addresses t addrs f)
  unfolding add_addresses
  add_addresses-IsConsistent [] f c = c
  add_addresses-IsConsistent (a ∷ addrs) f c =
      add_addresses-IsConsistent addrs (add_address t a f) (add_address-IsConsistent t a f c)

  pub add_addresses-holds :
      (addrs : List EndpointAddress) (f : Found) (k : Text)
      → holds k f.processed ≡ true
      → holds k (add_addresses t addrs f).processed ≡ true
  unfolding add_addresses
  add_addresses-holds [] f k h = h
  add_addresses-holds (a ∷ addrs) f k h =
      add_addresses-holds addrs (add_address t a f) k (add_address-holds t a f k h)

  pub add_addresses-adds :
      (addrs : List EndpointAddress) (f : Found) (a : EndpointAddress)
      → In a addrs
      → holds (key (made t a)) (add_addresses t addrs f).processed ≡ true
  unfolding add_addresses
  add_addresses-adds [] f a i = elim i [ ]
  add_addresses-adds (b ∷ addrs) f a (inl same) =
      add_addresses-holds addrs (add_address t b f) (key (made t a))
        (rw same (add_address-adds t b f))
  add_addresses-adds (b ∷ addrs) f a (inr i) = add_addresses-adds addrs (add_address t b f) a i

  pub add_addresses-sound :
      (P : Endpoint → Type 0) (addrs : List EndpointAddress) (f : Found)
      → ((e : Endpoint) → In e f.servers → P e)
      → ((a : EndpointAddress) → In a addrs → P (made t a))
      → (e : Endpoint) → In e (add_addresses t addrs f).servers
      → P e
  unfolding add_addresses
  add_addresses-sound P [] f old new = old
  add_addresses-sound P (a ∷ addrs) f old new =
      add_addresses-sound P addrs (add_address t a f)
        (add_address-sound t a f P old (new a (inl refl))) (λ b i. new b (inr i))
