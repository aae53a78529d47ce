-- ===== src/Status/Slices.antt =====
-- The comparison of the addresses of an ingress with the new ones.
use wls_ingress.Base.{true, List, [], ◌∷◌, ◌≡◌, ◌↔◌, refl, sym, subst, arith, In, inl, inr}
use wls_ingress.Base.{length, Bool-cases}
use wls_ingress.Base.Text.{==_iff, ==_refl}
use wls_ingress.Base.Sort.{
  sort_stable-perm, sort_stable_of_perm, IsStrictOrder, text_lt-IsStrictOrder,
}
use wls_ingress.Ingress.{LoadBalancerIngress, IngressObject}
use wls_ingress.Status.{
  less_load_balancer_ingress, slices_agree, ingress_slice_equal, sorted, queued,
}
use mathlib.Core.List.{Permᴰ}
use mathlib.Core.List.Permᴰ

less-IsStrictOrder : IsStrictOrder less_load_balancer_ingress
unfolding less_load_balancer_ingress
less-IsStrictOrder =
    let t = text_lt-IsStrictOrder in
    record {
      asymmetric = λ a b h. ground (
        arith,
        t.asymmetric a.hostname b.hostname,
        t.asymmetric b.hostname a.hostname,
        t.asymmetric a.ip b.ip,
      );
      transitive = λ a b c h k. ground (
        arith,
        t.transitive a.hostname b.hostname c.hostname,
        t.transitive a.ip b.ip c.ip,
        t.total a.hostname b.hostname,
        t.total b.hostname c.hostname,
        t.asymmetric a.hostname b.hostname,
        t.asymmetric b.hostname c.hostname,
        t.asymmetric a.hostname c.hostname,
      );
      total = λ a b h k. ground (arith, t.total a.hostname b.hostname, t.total a.ip b.ip);
    }

slices_agree_sound :
    (a b : List LoadBalancerIngress) → length a ≡ length b → slices_agree a b ≡ true → a ≡ b
unfolding slices_agree
slices_agree_sound [] [] l h = refl
slices_agree_sound [] (y ∷ b) l h = absurd (omega (arith, l))
slices_agree_sound (x ∷ a) [] l h = absurd (omega (arith, l))
slices_agree_sound (x ∷ a) (y ∷ b) l h =
    ground (arith, ==_iff x.ip y.ip, ==_iff x.hostname y.hostname, slices_agree_sound a b)

slices_agree_refl : (a : List LoadBalancerIngress) → slices_agree a a ≡ true
unfolding slices_agree
slices_agree_refl [] = refl
slices_agree_refl (x ∷ a) = ground (arith, ==_refl x.ip, ==_refl x.hostname, slices_agree_refl a)

pub ingress_slice_equal_iff :
    (a b : List LoadBalancerIngress) → (ingress_slice_equal a b ≡ true) ↔ (a ≡ b)
unfolding ingress_slice_equal
ingress_slice_equal_iff a b = (
  λ h. slices_agree_sound a b (ground arith) (ground arith),
  λ e.
      subst (λ (x : List LoadBalancerIngress). ingress_slice_equal a x ≡ true) e
        (ground (arith, slices_agree_refl a)),
)

-- Two lists of addresses sorted by lessLoadBalancerIngress are equal for ingressSliceEqual exactly
-- when the lists have the same addresses, each as often, in whatever order.
pub ingress_slice_equal-sorted :
    (a b : List LoadBalancerIngress)
    → (ingress_slice_equal (sorted a) (sorted b) ≡ true) ↔ Permᴰ a b
ingress_slice_equal-sorted a b = (
  λ h.
      let same = (ingress_slice_equal_iff (sorted a) (sorted b)).0 h in
      Permᴰ.trans (sort_stable-perm less_load_balancer_ingress a) (
        subst (λ (x : List LoadBalancerIngress). Permᴰ x b) (sym same)
          (Permᴰ.symm (sort_stable-perm less_load_balancer_ingress b))),
  λ p.
      (ingress_slice_equal_iff (sorted a) (sorted b)).1
        (sort_stable_of_perm less_load_balancer_ingress less-IsStrictOrder p),
)

-- updateStatus queues exactly the ingresses whose addresses are not the new ones up to their order.
pub queued_iff :
    (new : List LoadBalancerIngress) (ings : List IngressObject) (ing : IngressObject)
    → In ing (queued (sorted new) ings) ↔ (In ing ings × ¬ Permᴰ ing.load_balancer new)
unfolding queued
queued_iff new [] ing = (λ i. elim i [ ], λ (i, n). elim i [ ])
queued_iff new (x ∷ ings) ing =
    elim (Bool-cases (ingress_slice_equal (sorted x.load_balancer) (sorted new))) [
      | inl same ↦ rw same (
        λ i. let (j, n) = (queued_iff new ings ing).0 i in (inr j, n),
        λ (i, n). elim i [
          | inl e ↦ absurd (
              n (
                subst (λ (y : IngressObject). Permᴰ y.load_balancer new) (sym e)
                  ((ingress_slice_equal-sorted x.load_balancer new).0 same)))
          | inr j ↦ (queued_iff new ings ing).1 (j, n)
        ],
      )
      | inr other ↦ rw other (
        λ i. elim i [
          | inl e ↦ (
            inl e,
            λ p. cc (
              other,
              (ingress_slice_equal-sorted x.load_balancer new).1
                  (subst (λ (y : IngressObject). Permᴰ y.load_balancer new) e p),
            ),
          )
          | inr j ↦ let (k, n) = (queued_iff new ings ing).0 j in (inr k, n)
        ],
        λ (i, n). elim i [ inl e ↦ inl e | inr j ↦ inr ((queued_iff new ings ing).1 (j, n)) ],
      )
    ]
