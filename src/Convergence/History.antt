-- ===== src/Convergence/History.antt =====
-- The store after any calls of the informer.
use wls_ingress.Base.{true, List, [], ◌∷◌, Option, none, some, ◌≡◌, ◌↔◌, refl, In}
use wls_ingress.Base.{sym, ◌∙◌, inl, inr, Bool-cases}
use wls_ingress.Base.Text.{Text}
use wls_ingress.Base.Run.{Run, ok, ◌>>=◌}
use wls_ingress.Ingress.{IngressObject}
use wls_ingress.Annotations.{has_class}
use wls_ingress.Store.{AnnotatedIngress, Cache, annotated, Store, list_ingresses}
use wls_ingress.Store.Listing.{list_ingresses-exact}
use wls_ingress.Store.Mirror.{IsCache, World, Change, handle, IsChange, Mirrors, mirrored}
use wls_ingress.Store.Mirror.Handlers.{handle-Mirrors}

module _ (cache : Cache) (ingress_class : Text) where
  -- The handlers, called one after another.
  unfoldable pub handle_all :
      List Change → Store cache ingress_class → Run (Store cache ingress_class)
  handle_all [] s = ok s
  handle_all (c ∷ changes) s = do s' ← handle cache ingress_class c s; handle_all changes s'

  module _ (key : IngressObject → Text) where
    -- Calls that an informer makes from one set of ingresses to another.
    pub data IsHistory : World → List Change → World → Type 0 where
      no_change : (w : World) → IsHistory w [] w
      changed :
          (w w' w'' : World) (c : Change) (changes : List Change)
          → IsChange cache ingress_class key w c w'
          → IsHistory w' changes w''
          → IsHistory w (c ∷ changes) w''

    -- Ingresses of the informer whose class is accepted.
    abbrev pub Accepted : World → IngressObject → Type 0
    Accepted w i = (k : Text) × (w k ≡ some i) × (has_class ingress_class i ≡ true)

    module _ (laws : IsCache cache key) where
      pub handle_all-Mirrors :
          (w w' : World) (changes : List Change) (s : Store cache ingress_class)
          → IsHistory w changes w'
          → Mirrors cache ingress_class key w s
          → (s' : Store cache ingress_class) × (handle_all changes s ≡ ok s')
            × Mirrors cache ingress_class key w' s'
      unfolding handle_all
      handle_all-Mirrors _ _ [] s (no_change w) m = (s, refl, m)
      handle_all-Mirrors _ _ _ s (changed w w' w'' c changes change more) m =
          let (s', e, m') = handle-Mirrors cache ingress_class key laws w w' c s change m in
          let (s'', f, m'') = handle_all-Mirrors w' w'' changes s' more m' in (s'', rw e f, m'')

      mirrored_iff :
          (o : Option IngressObject) (a : AnnotatedIngress)
          → (mirrored cache ingress_class key o ≡ some a) ↔ (
              (i : IngressObject) × (o ≡ some i)
              × (has_class ingress_class i ≡ true)
              × (a ≡ annotated i))
      mirrored_iff none a = (λ h. cc, λ (i, e, c, s). cc)
      mirrored_iff (some i) a = elim (Bool-cases (has_class ingress_class i)) [
        | inl valid ↦
            rw valid
              (λ h. (i, refl, valid, cc), λ (j, e, c, s). let same : j ≡ i = cc in rw (s, same))
        | inr bad ↦ rw bad (λ h. cc, λ (j, e, c, s). let same : j ≡ i = cc in cc (rw same at c))
      ]

      -- A store that mirrors the informer's ingresses lists those of an accepted class.
      pub listed_iff :
          (w : World) (s : Store cache ingress_class)
          → ((a : AnnotatedIngress)
              → In a (cache.list s.ingresses)
                ↔ ((k : Text) × (cache.get_by_key k s.ingresses ≡ some a)))
          → Mirrors cache ingress_class key w s
          → (a : AnnotatedIngress)
          → In a (list_ingresses cache ingress_class none s)
            ↔ ((i : IngressObject) × Accepted w i × (a ≡ annotated i))
      listed_iff w s listed m a =
          let (sorted, exact) = list_ingresses-exact cache ingress_class none s in
          (
            λ i.
                let (k, e) = (listed a).0 ((exact a).0 i).0 in
                let (j, f, c, same) = (mirrored_iff (w k) a).0 (sym (m k) ∙ e) in
                (j, (k, f, c), same),
            λ (j, (k, f, c), same).
                (exact a).1 ((listed a).1 (k, m k ∙ (mirrored_iff (w k) a).1 (j, f, c, same)), tt),
          )
