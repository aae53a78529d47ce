-- ===== src/Status/Addresses.antt =====
-- The addresses of the running controllers, and when the status is cleared.
use wls_ingress.Base.{
  ◌≤◌, Bool, true, false, List, [], ◌∷◌, ◌++◌, some, ◌≡◌, ◌≢◌, ◌↔◌, ◌⊎◌, refl, sym, arith,
}
use wls_ingress.Base.{
  subst, In, In-append_left, In-append_right, In-append_cases, inl, inr, length, ltb, Bool-cases,
  Option-cases,
}
use wls_ingress.Base.Text.{Text, codes, ◌==◌, ==_iff}
use wls_ingress.Ingress.{IngressObject}
use wls_ingress.Status.{
  Cluster, Pod, add_pod, get_node_ip_or_name, pod_addresses, running_addresses,
  is_running_multiple_pods, IngressClient, update_status, shutdown,
}

-- StringInSlice is membership.
abbrev pub IsInSlice : (Text → List Text → Bool) → Type 0
IsInSlice in_slice = (s : Text) (l : List Text) → (in_slice s l ≡ true) ↔ In s l

abbrev pub Distinct : List Text → Type 0
Distinct [] = Unit
Distinct (x ∷ xs) = (¬ (In x xs)) × Distinct xs

Distinct-append : (xs : List Text) (y : Text) → Distinct xs → ¬ In y xs → Distinct (xs ++ y ∷ [])
Distinct-append [] y d n = (λ i. i, tt)
Distinct-append (x ∷ xs) y (m, d) n = (
  λ i. elim (In-append_cases x xs (y ∷ []) i) [
    | inl j ↦ m j
    | inr j ↦ elim j [ inl e ↦ n (inl (sym e)) | inr k ↦ k ]
  ],
  Distinct-append xs y d (λ i. n (inr i)),
)

-- The address of a running pod's node.
abbrev pub IsRunning : Cluster → List Pod → Text → Type 0
IsRunning cluster pods a =
    (pod : Pod) × In pod pods
    × (pod.phase ≡ codes "Running")
    × (a ≡ get_node_ip_or_name cluster pod.node_name false)

module _ (in_slice : Text → List Text → Bool) (membership : IsInSlice in_slice)
    (cluster : Cluster) where
  add_pod_exact :
      (pod : Pod) (addrs : List Text)
      → Distinct addrs
      → Distinct (add_pod in_slice cluster pod addrs)
        × ((a : Text)
            → In a (add_pod in_slice cluster pod addrs) ↔ (
                In a addrs
                ⊎ ((pod.phase ≡ codes "Running")
                    × (a ≡ get_node_ip_or_name cluster pod.node_name false))))
  unfolding add_pod
  add_pod_exact pod addrs d = elim (Bool-cases (pod.phase == codes "Running")) [
    | inr other ↦ rw other (
      d,
      λ a. (
        λ i. inl i,
        λ h. elim h [
          | inl i ↦ i
          | inr (p, e) ↦ cc (other, (==_iff pod.phase (codes "Running")).1 p)
        ],
      ),
    )
    | inl running ↦
        let name = get_node_ip_or_name cluster pod.node_name false in
        let phase = (==_iff pod.phase (codes "Running")).0 running in
        elim (Bool-cases (in_slice name addrs)) [
          | inl old ↦
              rw (running, old)
                (
                  d,
                  λ a. (
                    λ i. inl i,
                    λ h. elim h [
                      | inl i ↦ i
                      | inr (p, e) ↦
                          subst (λ (b : Text). In b addrs) (sym e) ((membership name addrs).0 old)
                    ],
                  ),
                )
          | inr new ↦
              rw (running, new)
                (
                  Distinct-append addrs name d (λ i. cc (new, (membership name addrs).1 i)),
                  λ a. (
                    λ i. elim (In-append_cases a addrs (name ∷ []) i) [
                      | inl j ↦ inl j
                      | inr j ↦ elim j [ inl e ↦ inr (phase, e) | inr k ↦ absurd k ]
                    ],
                    λ h. elim h [
                      | inl i ↦ In-append_left a addrs (name ∷ []) i
                      | inr (p, e) ↦ In-append_right a addrs (name ∷ []) (inl e)
                    ],
                  ),
                )
        ]
  ]

  pod_addresses_exact :
      (pods : List Pod) (addrs : List Text)
      → Distinct addrs
      → Distinct (pod_addresses in_slice cluster pods addrs)
        × ((a : Text)
            → In a (pod_addresses in_slice cluster pods addrs)
              ↔ (In a addrs ⊎ IsRunning cluster pods a))
  unfolding pod_addresses
  pod_addresses_exact [] addrs d =
      (d, λ a. (λ i. inl i, λ h. elim h [ inl i ↦ i | inr (p, i, q, e) ↦ elim i [ ] ]))
  pod_addresses_exact (pod ∷ pods) addrs d =
      let (d', one) = add_pod_exact pod addrs d in
      let (d'', all) = pod_addresses_exact pods (add_pod in_slice cluster pod addrs) d' in
      (
        d'',
        λ a. (
          λ i. elim ((all a).0 i) [
            | inl j ↦ elim ((one a).0 j) [ inl k ↦ inl k | inr (p, e) ↦ inr (pod, inl refl, p, e) ]
            | inr (q, j, p, e) ↦ inr (q, inr j, p, e)
          ],
          λ h. elim h [
            | inl j ↦ (all a).1 (inl ((one a).1 (inl j)))
            | inr (q, j, p, e) ↦ elim j [
              | inl same ↦ (all a).1 (inl ((one a).1 (inr (cc, cc))))
              | inr k ↦ (all a).1 (inr (q, k, p, e))
            ]
          ],
        ),
      )

  -- If StringInSlice is membership, no service is published and the pods can be listed, then
  -- runningAddresses returns without duplicates the addresses of the nodes of the running pods,
  -- and nothing else. (The address of a node without an external one is empty.)
  pub running_addresses-exact :
      (pods : List Pod)
      → cluster.list_pods ≡ some pods
      → (addrs : List Text) × (running_addresses in_slice cluster [] ≡ some addrs)
        × Distinct addrs
        × ((a : Text) → In a addrs ↔ IsRunning cluster pods a)
  unfolding running_addresses ◌==◌
  running_addresses-exact pods h =
      let (d, e) = pod_addresses_exact pods [] tt in
      (
        pod_addresses in_slice cluster pods [],
        rw h,
        d,
        λ a. (λ i. elim ((e a).0 i) [ inl j ↦ elim j [ ] | inr r ↦ r ], λ r. (e a).1 (inr r)),
      )

module _ (client : IngressClient) (in_slice : Text → List Text → Bool) (is_ip : Text → Bool) where
  -- Shutdown writes to the cluster only if the status is to be updated on shutdown, the controller
  -- has at most one address and its pods cannot be listed or are at most one; what it writes then
  -- is the empty status.
  pub shutdown_clears :
      (on : Bool) (cluster : Cluster) (publish_service : Text) (ings : List IngressObject)
      (s : client.State)
      → shutdown client in_slice is_ip on cluster publish_service ings s ≢ s
      → (on ≡ true)
        × ((addrs : List Text) × (running_addresses in_slice cluster publish_service ≡ some addrs)
            × length addrs ≤ 1)
        × (is_running_multiple_pods cluster ≡ false)
        × (shutdown client in_slice is_ip on cluster publish_service ings s
            ≡ update_status client [] ings s)
  unfolding shutdown
  shutdown_clears false cluster publish_service ings s n = absurd (n refl)
  shutdown_clears true cluster publish_service ings s n =
      elim (Option-cases (running_addresses in_slice cluster publish_service)) [
        | inl e ↦ absurd (n (rw e refl))
        | inr (addrs, e) ↦ elim (Bool-cases (ltb 1 (length addrs))) [
          | inl many ↦ absurd (n (rw (e, many) refl))
          | inr few ↦ elim (Bool-cases (is_running_multiple_pods cluster)) [
            | inl more ↦ absurd (n (rw (e, few, more) refl))
            | inr one ↦ (refl, (addrs, e, ground (arith, few)), one, rw (e, few, one) refl)
          ]
        ]
      ]
