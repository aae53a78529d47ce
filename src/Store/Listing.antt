-- ===== src/Store/Listing.antt =====
-- What the store lists.
use wls_ingress.Base.{
  Bool, false, List, [], ◌∷◌, Option, none, some, ◌≡◌, ◌↔◌, ap, ◌∙◌, In, In-perm, inl, inr,
  Bool-cases, ltb,
}
use wls_ingress.Base.Sort.{sort_stable-perm, sort_stable-Sorted, Sorted}
use wls_ingress.Base.Text.{Text}
use wls_ingress.Store.{AnnotatedIngress, Cache, Store, kept, list_ingresses}
use mathlib.Core.List.Permᴰ

-- The filter does not drop the ingress.
abbrev pub Passes : Option (AnnotatedIngress → Bool) → AnnotatedIngress → Type 0
Passes none ing = Unit
Passes (some drops) ing = drops ing ≡ false

module _ (cache : Cache) (ingress_class : Text) where
  kept_iff :
      (filter : Option (AnnotatedIngress → Bool)) (ings : List AnnotatedIngress)
      (ing : AnnotatedIngress)
      → In ing (kept cache ingress_class filter ings) ↔ (In ing ings × Passes filter ing)
  unfolding kept
  kept_iff filter [] ing = (λ i. elim i [ ], λ (i, p). elim i [ ])
  kept_iff none (x ∷ ings) ing = (
    λ i. elim i [ inl e ↦ (inl e, tt) | inr j ↦ (inr ((kept_iff none ings ing).0 j).0, tt) ],
    λ (i, p). elim i [ inl e ↦ inl e | inr j ↦ inr ((kept_iff none ings ing).1 (j, tt)) ],
  )
  kept_iff (some drops) (x ∷ ings) ing = elim (Bool-cases (drops x)) [
    | inl out ↦ rw out (
      λ i. let (j, p) = (kept_iff (some drops) ings ing).0 i in (inr j, p),
      λ (i, p). elim i [
        | inl e ↦ cc (ap drops e, out, p)
        | inr j ↦ (kept_iff (some drops) ings ing).1 (j, p)
      ],
    )
    | inr stays ↦ rw stays (
      λ i. elim i [
        | inl e ↦ (inl e, ap drops e ∙ stays)
        | inr j ↦ let (k, p) = (kept_iff (some drops) ings ing).0 j in (inr k, p)
      ],
      λ (i, p). elim i [ inl e ↦ inl e | inr j ↦ inr ((kept_iff (some drops) ings ing).1 (j, p)) ],
    )
  ]

  -- ListIngresses returns the ingresses of the cache that the filter does not drop, and no others,
  -- the oldest first; without a filter it drops none.
  pub list_ingresses-exact :
      (filter : Option (AnnotatedIngress → Bool)) (s : Store cache ingress_class)
      → Sorted (λ ing. ing.ingress.creation) (list_ingresses cache ingress_class filter s)
        × ((ing : AnnotatedIngress)
            → In ing (list_ingresses cache ingress_class filter s)
              ↔ (In ing (cache.list s.ingresses) × Passes filter ing))
  unfolding list_ingresses
  list_ingresses-exact filter s =
      let ings = kept cache ingress_class filter (cache.list s.ingresses) in
      let older : AnnotatedIngress → AnnotatedIngress → Bool =
        λ i j. ltb i.ingress.creation j.ingress.creation in
      let p = sort_stable-perm older ings in
      (
        sort_stable-Sorted (λ (ing : AnnotatedIngress). ing.ingress.creation) ings,
        λ ing. (
          λ i. (kept_iff filter (cache.list s.ingresses) ing).0 (In-perm ing (Permᴰ.symm p) i),
          λ h. In-perm ing p ((kept_iff filter (cache.list s.ingresses) ing).1 h),
        ),
      )
