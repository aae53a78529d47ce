-- ===== src/Store/Notices.antt =====
-- Every change of the store is announced.
use wls_ingress.Base.{Bool, true, false, [], ◌∷◌, ◌++◌, Option, none, some, ◌≡◌, ◌⊎◌}
use wls_ingress.Base.{refl, arith, inl, inr, Bool-cases, Option-cases}
use wls_ingress.Base.Text.{Text}
use wls_ingress.Base.Run.{ok, Run-cases}
use wls_ingress.Ingress.{IngressObject}
use wls_ingress.Annotations.{is_valid}
use wls_ingress.Store.{
  Object, networking, extensions, tombstone, other_object, to_ingress, EventType, create, update,
  delete, Cache, Store, sync_ingress, send, delete_ingress, on_delete, on_add, on_update, updated,
  stored,
}
use wls_ingress.Store.Mirror.{Change, adds, updates, deletes, handle}

-- The object is one that the informer handed over.
abbrev pub IsOf : Change → Object → Type 0
IsOf (adds obj) o = o ≡ obj
IsOf (updates same old cur) o = (o ≡ old) ⊎ (o ≡ cur)
IsOf (deletes obj) o = o ≡ obj

module _ (cache : Cache) (ingress_class : Text) where
  -- The store is as before, or an event with an object that passes the test was sent.
  abbrev pub Announced :
      (Object → Type 0) → Store cache ingress_class → Store cache ingress_class → Type 0
  Announced P s s' =
      (s' ≡ s)
      ⊎ ((type : EventType) × (obj : Object) × (s'.update_ch
            ≡ s.update_ch ++ record { type = type; object = obj } ∷ [])
          × P obj)

  delete_ingress_announces :
      (ing : IngressObject) (obj : Object) (s s' : Store cache ingress_class)
      → delete_ingress cache ingress_class ing obj s ≡ ok s'
      → Announced (λ o. o ≡ obj) s s'
  unfolding delete_ingress send
  delete_ingress_announces ing obj s s' e = elim (Run-cases (is_valid ingress_class (some ing))) [
    | inl p ↦ ground (arith, p)
    | inr (valid, p) ↦ elim (Bool-cases valid) [
      | inl v ↦ inr (delete, obj, ground arith, refl)
      | inr v ↦ inl (ground arith)
    ]
  ]

  on_delete_announces :
      (obj : Object) (s s' : Store cache ingress_class)
      → on_delete cache ingress_class obj s ≡ ok s'
      → Announced (λ o. o ≡ obj) s s'
  unfolding on_delete
  on_delete_announces (networking ing) s s' e = delete_ingress_announces ing (networking ing) s s' e
  on_delete_announces (extensions (some ing)) s s' e =
      delete_ingress_announces ing (extensions (some ing)) s s' e
  on_delete_announces (extensions none) s s' e = inl cc
  on_delete_announces (tombstone (networking ing)) s s' e =
      delete_ingress_announces ing (tombstone (networking ing)) s s' e
  on_delete_announces (tombstone (extensions ing)) s s' e = inl cc
  on_delete_announces (tombstone (tombstone obj)) s s' e = inl cc
  on_delete_announces (tombstone other_object) s s' e = inl cc
  on_delete_announces other_object s s' e = inl cc

  updated_announces :
      (valid_old valid_cur same : Bool) (old cur : Object) (s s' : Store cache ingress_class)
      → updated cache ingress_class valid_old valid_cur same old cur s ≡ ok s'
      → Announced (IsOf (updates same old cur)) s s'
  unfolding updated send sync_ingress
  updated_announces false false same old cur s s' e = inl cc
  updated_announces false true same old cur s s' e = sent (to_ingress cur) e
    where
      sent :
          (i : Option IngressObject)
          → ok (send cache ingress_class update cur (stored cache ingress_class i s)) ≡ ok s'
          → Announced (IsOf (updates same old cur)) s s'
      sent none h = inr (update, cur, ground arith, inr refl)
      sent (some ing) h = inr (update, cur, ground arith, inr refl)
  updated_announces true false same old cur s s' e = elim (on_delete_announces old s s' e) [
    | inl h ↦ inl h
    | inr (type, obj, h, o) ↦ inr (type, obj, h, inl o)
  ]
  updated_announces true true true old cur s s' e = inl cc
  updated_announces true true false old cur s s' e = sent (to_ingress cur) e
    where
      sent :
          (i : Option IngressObject)
          → ok (send cache ingress_class update cur (stored cache ingress_class i s)) ≡ ok s'
          → Announced (IsOf (updates false old cur)) s s'
      sent none h = inr (update, cur, ground arith, inr refl)
      sent (some ing) h = inr (update, cur, ground arith, inr refl)

  -- Whatever the informer hands over: a handler that returns has left the store as it was, or it
  -- has sent exactly one event, with an object that it was given. So no change of the store's
  -- ingresses goes unannounced.
  pub handle_announces :
      (c : Change) (s s' : Store cache ingress_class)
      → handle cache ingress_class c s ≡ ok s'
      → Announced (IsOf c) s s'
  unfolding handle on_add on_update send sync_ingress
  handle_announces (adds obj) s s' e = elim (Run-cases (is_valid ingress_class (to_ingress obj))) [
    | inl p ↦ ground (arith, p)
    | inr (valid, p) ↦ elim (Bool-cases valid) [
      | inl v ↦ elim (Option-cases (to_ingress obj)) [
        | inl n ↦ inr (create, obj, ground arith, refl)
        | inr (i, n) ↦ inr (create, obj, ground arith, refl)
      ]
      | inr v ↦ inl (ground arith)
    ]
  ]
  handle_announces (updates same old cur) s s' e =
      elim (Run-cases (is_valid ingress_class (to_ingress old))) [
        | inl p ↦ ground (arith, p)
        | inr (valid_old, p) ↦ elim (Run-cases (is_valid ingress_class (to_ingress cur))) [
          | inl q ↦ ground (arith, p, q)
          | inr (valid_cur, q) ↦
              updated_announces valid_old valid_cur same old cur s s' (ground arith)
        ]
      ]
  handle_announces (deletes obj) s s' e = on_delete_announces obj s s' e
