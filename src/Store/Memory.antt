-- ===== src/Store/Memory.antt =====
-- A cache in memory that meets what is relied on, for the examples.
use wls_ingress.Base.{List, [], ◌∷◌, ◌++◌, some, ◌≡◌, refl, arith}
use wls_ingress.Base.Text.{Text, ◌==◌, ==_iff, ==_refl}
use wls_ingress.Base.Maps.{Map, lookup, insert, remove, lookup-insert, lookup-remove}
use wls_ingress.Ingress.{IngressObject}
use wls_ingress.Store.{AnnotatedIngress, Cache}
use wls_ingress.Store.Mirror.{IsCache}
use wls_ingress.Base.{In, ◌↔◌}
use wls_ingress.Redis.{contains}
use wls_ingress.Base.{false, Bool-cases, inl, inr, if◌then◌else◌}

abbrev pub key : IngressObject → Text
key i = i.namespace ++ b'/' ∷ i.name

-- The values of the keys that were not seen before.
unfoldable pub values_after : List Text → Map AnnotatedIngress → List AnnotatedIngress
values_after seen [] = []
values_after seen ((k, v) ∷ m) =
    let later = values_after seen m in
    let more = values_after (k ∷ seen) m in if contains seen k then later else v ∷ more

values_iff :
    (seen : List Text) (m : Map AnnotatedIngress) (a : AnnotatedIngress)
    → In a (values_after seen m) ↔ ((k : Text) × (contains seen k ≡ false) × (lookup k m ≡ some a))
unfolding values_after lookup contains
values_iff seen [] a = (λ i. elim i [ ], λ (k, c, e). cc)
values_iff seen ((j, v) ∷ m) a = elim (Bool-cases (contains seen j)) [
  | inl old ↦ rw old (
    λ i. let (k, c, e) = (values_iff seen m a).0 i in (k, c, ground (arith, ==_iff j k)),
    λ (k, c, e). (values_iff seen m a).1 (k, c, ground (arith, ==_iff j k)),
  )
  | inr new ↦ rw new (
    λ i. elim i [
      | inl same ↦ (j, new, ground (arith, ==_refl j))
      | inr later ↦
          let (k, c, e) = (values_iff (j ∷ seen) m a).0 later in
          (k, ground arith, ground (arith, ==_iff j k, ==_iff k j))
    ],
    λ (k, c, e). elim (Bool-cases (j == k)) [
      | inl same ↦ inl (ground arith)
      | inr other ↦
          inr (
            (values_iff (j ∷ seen) m a).1 (k, ground (arith, ==_iff j k, ==_iff k j), ground arith))
    ],
  )
]

abbrev pub memory : Cache
memory = record {
  State = Map AnnotatedIngress;
  update = λ a s. insert (key a.ingress) a s;
  delete = λ i s. remove (key i) s;
  list = λ s. values_after [] s;
  get_by_key = lookup;
}

pub memory_listed :
    (a : AnnotatedIngress) (s : Map AnnotatedIngress)
    → In a (memory.list s) ↔ ((k : Text) × (lookup k s ≡ some a))
unfolding contains
memory_listed a s = (
  λ i. let (k, c, e) = (values_iff [] s a).0 i in (k, e),
  λ (k, e). (values_iff [] s a).1 (k, refl, e),
)

pub memory-IsCache : IsCache memory key
memory-IsCache = record {
  get_updated = λ a s.
      ground (arith, lookup-insert (key a.ingress) (key a.ingress) a s, ==_refl (key a.ingress));
  get_updated_other =
      λ k a s n. ground (arith, lookup-insert (key a.ingress) k a s, ==_iff (key a.ingress) k);
  get_deleted = λ i s. ground (arith, lookup-remove (key i) (key i) s, ==_refl (key i));
  get_deleted_other = λ k i s n. ground (arith, lookup-remove (key i) k s, ==_iff (key i) k);
  key_named = λ i j e f. cc;
}
