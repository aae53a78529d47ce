-- ===== src/Redis/Keys.antt =====
-- The keys of the sessions.
use wls_ingress.Base.{true, false, [], ◌∷◌, ◌++◌, ◌≡◌, ◌≢◌, refl, ap, arith, ◌↔◌}
use wls_ingress.Base.Text.{
  Text, contains_text, has_prefix, has_prefix-append, contains_text_of_prefix,
}
use wls_ingress.Redis.{create_namespaced, create_namespaced_key}

append-injective : (p s t : Text) → p ++ s ≡ p ++ t → s ≡ t
append-injective [] s t e = e
append-injective (c ∷ p) s t e = let tail : p ++ s ≡ p ++ t = cc in append-injective p s t tail

-- A key with the namespace at its start is kept.
pub create_namespaced_key_of_prefix :
    (prefix key : Text)
    → has_prefix key (create_namespaced prefix) ≡ true
    → create_namespaced_key prefix key ≡ key
unfolding create_namespaced_key
create_namespaced_key_of_prefix prefix key h =
    ground (arith, contains_text_of_prefix key (create_namespaced prefix))

-- Two cookies without the namespace in them have one key only if they are equal.
pub create_namespaced_key-injective :
    (prefix j k : Text)
    → contains_text j (create_namespaced prefix) ≡ false
    → contains_text k (create_namespaced prefix) ≡ false
    → (create_namespaced_key prefix j ≡ create_namespaced_key prefix k) ↔ (j ≡ k)
unfolding create_namespaced_key
create_namespaced_key-injective prefix j k h h' = (
  λ e. append-injective (create_namespaced prefix) j k (ground arith),
  λ e. ap (create_namespaced_key prefix) e,
)

-- The session cookie is the client's: the cookie that is the namespace followed by another
-- cookie has the key of that other cookie.
pub create_namespaced_key_forged :
    (prefix j : Text)
    → contains_text j (create_namespaced prefix) ≡ false
    → (create_namespaced prefix ++ j ≢ j)
      × (create_namespaced_key prefix (create_namespaced prefix ++ j)
          ≡ create_namespaced_key prefix j)
unfolding create_namespaced_key
create_namespaced_key_forged prefix j h =
    let holds =
      contains_text_of_prefix (create_namespaced prefix ++ j) (create_namespaced prefix)
        (has_prefix-append (create_namespaced prefix) j) in
    (λ e. cc (rw e at holds), ground arith)

pub pattern_made :
    (prefix : Text)
    → create_namespaced_key prefix (b'*' ∷ []) ≡ create_namespaced prefix ++ b'*' ∷ []
unfolding create_namespaced_key create_namespaced contains_text has_prefix
pattern_made [] = refl
pattern_made (c ∷ []) = ground arith
pattern_made (c ∷ d ∷ prefix) = ground arith
