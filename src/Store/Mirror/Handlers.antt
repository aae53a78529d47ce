-- ===== src/Store/Mirror/Handlers.antt =====
-- The handlers keep the store a mirror.
use wls_ingress.Base.{Bool, true, false, none, some, ◌≡◌, ◌⊎◌, refl, ◌∙◌, ap, inl, inr, Bool-cases}
use wls_ingress.Base.Text.{Text, ◌==◌, ==_refl}
use wls_ingress.Base.Run.{Run, ok}
use wls_ingress.Ingress.{IngressObject}
use wls_ingress.Annotations.{has_class, is_valid}
use wls_ingress.Store.{
  Object, networking, extensions, tombstone, other_object, to_ingress, EventType, create, update,
  delete, Cache, annotated, Store, sync_ingress, send, delete_ingress, on_delete, on_add, on_update,
  updated,
}
use wls_ingress.Store.Mirror.{
  IsCache, World, put, Change, deletes, handle, IsChange, is_add, is_update, is_delete, mirrored,
  Mirrors, update_mirrors, delete_mirrors, keep_mirrors,
}

module _ (cache : Cache) (ingress_class : Text) (key : IngressObject → Text)
    (laws : IsCache cache key) where
  abbrev Mirroring : Run (Store cache ingress_class) → World → Type 0
  Mirroring r w = (s : Store cache ingress_class) × (r ≡ ok s) × Mirrors cache ingress_class key w s

  -- The store after syncIngress and the event.
  abbrev synced :
      EventType → Object → IngressObject → Store cache ingress_class → Store cache ingress_class
  synced type obj i s = send cache ingress_class type obj (sync_ingress cache ingress_class i s)

  on_add_mirrors :
      (w : World) (s : Store cache ingress_class) (obj : Object) (i : IngressObject)
      → to_ingress obj ≡ some i
      → w (key i) ≡ none
      → Mirrors cache ingress_class key w s
      → Mirroring (on_add cache ingress_class obj s) (put (key i) (some i) w)
  unfolding on_add is_valid send sync_ingress
  on_add_mirrors w s obj i e absent m = elim (Bool-cases (has_class ingress_class i)) [
    | inl valid ↦ (
      synced create obj i s,
      rw (e, valid),
      update_mirrors cache ingress_class key laws w s i _ valid m refl,
    )
    | inr other ↦ (
      s,
      rw (e, other),
      keep_mirrors cache ingress_class key laws w s (key i) (some i) (rw (other, absent)) m,
    )
  ]

  delete_ingress_mirrors :
      (w : World) (s : Store cache ingress_class) (obj : Object) (i : IngressObject)
      → w (key i) ≡ some i
      → Mirrors cache ingress_class key w s
      → Mirroring (delete_ingress cache ingress_class i obj s) (put (key i) none w)
  unfolding delete_ingress is_valid send
  delete_ingress_mirrors w s obj i there m = elim (Bool-cases (has_class ingress_class i)) [
    | inl valid ↦ (
      send cache ingress_class delete obj (record s { ingresses = cache.delete i s.ingresses }),
      rw valid,
      delete_mirrors cache ingress_class key laws w s i _ m refl,
    )
    | inr other ↦ (
      s,
      rw other,
      keep_mirrors cache ingress_class key laws w s (key i) none (rw (there, other)) m,
    )
  ]

  on_delete_mirrors :
      (w : World) (s : Store cache ingress_class) (obj : Object) (i : IngressObject)
      → (to_ingress obj ≡ some i) ⊎ (obj ≡ tombstone (networking i))
      → w (key i) ≡ some i
      → Mirrors cache ingress_class key w s
      → Mirroring (on_delete cache ingress_class obj s) (put (key i) none w)
  unfolding on_delete to_ingress
  on_delete_mirrors w s obj i (inr e) there m =
      rw e (delete_ingress_mirrors w s (tombstone (networking i)) i there m)
  on_delete_mirrors w s (networking j) i (inl e) there m =
      let same : j ≡ i = cc in rw same (delete_ingress_mirrors w s (networking i) i there m)
  on_delete_mirrors w s (extensions (some j)) i (inl e) there m =
      let same : j ≡ i = cc in rw same (delete_ingress_mirrors w s (extensions (some i)) i there m)
  on_delete_mirrors w s (extensions none) i (inl e) there m = cc
  on_delete_mirrors w s (tombstone o) i (inl e) there m = cc
  on_delete_mirrors w s other_object i (inl e) there m = cc

  put_invalid :
      (w : World) (i j : IngressObject) (k : Text)
      → key i ≡ key j
      → has_class ingress_class j ≡ false
      → mirrored cache ingress_class key (put (key i) none w k)
        ≡ mirrored cache ingress_class key (put (key j) (some j) w k)
  put_invalid w i j k e other = elim (Bool-cases (k == key j)) [
    | inl same ↦ rw (e, same, other)
    | inr apart ↦ rw (e, apart)
  ]

  on_update_mirrors :
      (w : World) (s : Store cache ingress_class) (same : Bool) (old cur : Object)
      (i j : IngressObject)
      → to_ingress old ≡ some i
      → to_ingress cur ≡ some j
      → key i ≡ key j
      → w (key j) ≡ some i
      → (same ≡ true → i ≡ j)
      → Mirrors cache ingress_class key w s
      → Mirroring (on_update cache ingress_class same old cur s) (put (key j) (some j) w)
  unfolding on_update updated is_valid send sync_ingress
  on_update_mirrors w s same old cur i j e f one there unchanged m =
      elim (Bool-cases (has_class ingress_class i)) [
        | inl vi ↦ elim (Bool-cases (has_class ingress_class j)) [
          | inl vj ↦ elim (Bool-cases same) [
            | inl t ↦ (
              s,
              rw (e, f, vi, vj, t),
              keep_mirrors cache ingress_class key laws w s (key j) (some j)
                  (cc (there, unchanged t)) m,
            )
            | inr n ↦ (
              synced update cur j s,
              rw (e, f, vi, vj, n),
              update_mirrors cache ingress_class key laws w s j _ vj m refl,
            )
          ]
          | inr nj ↦
              let (s', ran, gone) = on_delete_mirrors w s old i (inl e) (ap w one ∙ there) m in
              (s', rw (e, f, vi, nj) ran, λ k. gone k ∙ put_invalid w i j k one nj)
        ]
        | inr ni ↦ elim (Bool-cases (has_class ingress_class j)) [
          | inl vj ↦ (
            synced update cur j s,
            rw (e, f, ni, vj),
            update_mirrors cache ingress_class key laws w s j _ vj m refl,
          )
          | inr nj ↦ (
            s,
            rw (e, f, ni, nj),
            keep_mirrors cache ingress_class key laws w s (key j) (some j) (rw (there, ni, nj)) m,
          )
        ]
      ]

  -- Whatever the informer hands over, the handlers do not panic and keep the store a mirror of its
  -- ingresses: an ingress is in the store, with its annotations parsed, exactly when the informer
  -- has it and its class is accepted. (A tombstone is of the networking group.)
  pub handle-Mirrors :
      (w w' : World) (change : Change) (s : Store cache ingress_class)
      → IsChange cache ingress_class key w change w'
      → Mirrors cache ingress_class key w s
      → (s' : Store cache ingress_class) × (handle cache ingress_class change s ≡ ok s')
        × Mirrors cache ingress_class key w' s'
  unfolding handle
  handle-Mirrors _ _ _ s (is_add w obj i e absent) m = on_add_mirrors w s obj i e absent m
  handle-Mirrors _ _ _ s (is_update w same old cur i j e f one there unchanged) m =
      on_update_mirrors w s same old cur i j e f one there unchanged m
  handle-Mirrors _ _ _ s (is_delete w obj i e there) m = on_delete_mirrors w s obj i e there m

  -- A tombstone of the extensions group is dropped: the ingress stays in the store, if its class is
  -- accepted, so that the store is no mirror of the informer's ingresses any more.
  pub handle-tombstone :
      (w : World) (s : Store cache ingress_class) (i : IngressObject)
      → w (key i) ≡ some i
      → has_class ingress_class i ≡ true
      → Mirrors cache ingress_class key w s
      → (handle cache ingress_class (deletes (tombstone (extensions (some i)))) s ≡ ok s)
        × ¬ Mirrors cache ingress_class key (put (key i) none w) s
  unfolding handle on_delete
  handle-tombstone w s i there valid m = (
    refl,
    λ gone.
        let kept : mirrored cache ingress_class key (w (key i)) ≡ some (annotated i) =
          rw (there, valid) in
        let absent : put (key i) none w (key i) ≡ none = rw (==_refl (key i)) in
        let removed : mirrored cache ingress_class key (put (key i) none w (key i)) ≡ none =
          rw absent in
        cc (m (key i), kept, gone (key i), removed),
  )
