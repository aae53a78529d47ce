-- ===== src/Controller/Endpoints/Join.antt =====
-- JoinHostPort is injective where the port has no colon, so the key of an endpoint stands for its
-- address and its port.
use wls_ingress.Base.{suc, true, false, [], ◌∷◌, ◌++◌, ◌≡◌, ◌≢◌, refl, sym, ◌∙◌, inl, inr}
use wls_ingress.Base.{All, arith, Bool-cases, if◌then◌else◌, append_assoc}
use wls_ingress.Base.Text.{Text, codes, contains_text, has_prefix}
use wls_ingress.Base.Int.{ℤ, pos, negsuc, itoa, decimal-digits, IsDigit}
use wls_ingress.Controller.Endpoints.{join_host_port}

abbrev pub NoColon : Text → Type 0
NoColon = All (λ c. c ≢ b':')

not_NoColon : (s p : Text) → ¬ NoColon (s ++ b':' ∷ p)
not_NoColon [] p h = h.0 refl
not_NoColon (c ∷ s) p h = not_NoColon s p h.1

-- A text has one last colon.
last_colon :
    (s s' p p' : Text)
    → NoColon p
    → NoColon p'
    → s ++ b':' ∷ p ≡ s' ++ b':' ∷ p'
    → (s ≡ s') × (p ≡ p')
last_colon [] [] p p' h h' e = (refl, cc)
last_colon [] (c ∷ s') p p' h h' e =
    let tail : p ≡ s' ++ b':' ∷ p' = cc in absurd (not_NoColon s' p' (rw tail at h))
last_colon (c ∷ s) [] p p' h h' e =
    let tail : p' ≡ s ++ b':' ∷ p = cc in absurd (not_NoColon s p (rw tail at h'))
last_colon (c ∷ s) (d ∷ s') p p' h h' e =
    let head : c ≡ d = cc in
    let tail : s ++ b':' ∷ p ≡ s' ++ b':' ∷ p' = cc in
    let (l, r) = last_colon s s' p p' h h' tail in (cc, r)

NoColon-of_test : (s : Text) → contains_text s (codes ":") ≡ false → NoColon s
unfolding contains_text has_prefix
NoColon-of_test [] h = tt
NoColon-of_test (c ∷ s) h = (λ e. ground arith, NoColon-of_test s (ground arith))

test-append : (s p : Text) → contains_text (s ++ b':' ∷ p) (codes ":") ≡ true
unfolding contains_text has_prefix
test-append [] [] = refl
test-append [] (c ∷ p) = refl
test-append (c ∷ s) p = ground (arith, test-append s p)

test_bracketed : (s : Text) → contains_text s (codes ":") ≡ true → ¬ NoColon s
unfolding contains_text has_prefix
test_bracketed [] h n = cc
test_bracketed (c ∷ s) h n = elim (Bool-cases (contains_text s (codes ":"))) [
  | inl e ↦ test_bracketed s e n.1
  | inr e ↦ n.0 (ground arith)
]

brackets_injective : (s t : Text) → s ++ b']' ∷ [] ≡ t ++ b']' ∷ [] → s ≡ t
brackets_injective [] [] e = refl
brackets_injective [] (d ∷ []) e = cc
brackets_injective [] (d ∷ d' ∷ t) e = cc
brackets_injective (c ∷ []) [] e = cc
brackets_injective (c ∷ c' ∷ s) [] e = cc
brackets_injective (c ∷ s) (d ∷ t) e =
    let tail : s ++ b']' ∷ [] ≡ t ++ b']' ∷ [] = cc in cc (brackets_injective s t tail)

NoColon-brackets : (s : Text) → NoColon (b'[' ∷ (s ++ b']' ∷ [])) → NoColon s
NoColon-brackets [] h = tt
NoColon-brackets (c ∷ s) h = (h.1.0, NoColon-brackets s (h.0, h.1.1))

-- What is joined before the last colon.
before : Text → Text
before host = if contains_text host (codes ":") then b'[' ∷ (host ++ b']' ∷ []) else host

join-before : (host port : Text) → join_host_port host port ≡ before host ++ b':' ∷ port
unfolding join_host_port before
join-before host port = elim (Bool-cases (contains_text host (codes ":"))) [
  | inl h ↦ rw h (rw append_assoc)
  | inr h ↦ rw h
]

before-injective : (h k : Text) → before h ≡ before k → h ≡ k
unfolding before
before-injective h k e = elim (Bool-cases (contains_text h (codes ":"))) [
  | inl a ↦ elim (Bool-cases (contains_text k (codes ":"))) [
    | inl b ↦ brackets_injective h k (ground arith)
    | inr b ↦
        let same : b'[' ∷ (h ++ b']' ∷ []) ≡ k = ground arith in
        absurd (test_bracketed h a (NoColon-brackets h (rw (← same) at (NoColon-of_test k b))))
  ]
  | inr a ↦ elim (Bool-cases (contains_text k (codes ":"))) [
    | inl b ↦
        let same : b'[' ∷ (k ++ b']' ∷ []) ≡ h = ground arith in
        absurd (test_bracketed k b (NoColon-brackets k (rw (← same) at (NoColon-of_test h a))))
    | inr b ↦ ground arith
  ]
]

-- Two hosts and two ports without a colon are joined to one text only if they are equal.
pub join_host_port-injective :
    (h k p q : Text)
    → NoColon p
    → NoColon q
    → join_host_port h p ≡ join_host_port k q
    → (h ≡ k) × (p ≡ q)
join_host_port-injective h k p q np nq e =
    let joined = sym (join-before h p) ∙ e ∙ join-before k q in
    let (same, ports) = last_colon (before h) (before k) p q np nq joined in
    (before-injective h k same, ports)

digits-NoColon : (s : Text) → All IsDigit s → NoColon s
digits-NoColon [] h = tt
digits-NoColon (c ∷ s) h = (λ e. absurd (omega (arith, h.0.1, e)), digits-NoColon s h.1)

pub itoa-NoColon : (n : ℤ) → NoColon (itoa n)
unfolding itoa
itoa-NoColon (pos n) = digits-NoColon _ (decimal-digits n)
itoa-NoColon (negsuc n) = (λ e. absurd (omega arith), digits-NoColon _ (decimal-digits (suc n)))
