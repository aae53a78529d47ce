-- ===== src/Annotations/Extract/Order.antt =====
-- The order in which Extract ranges over its parsers, and what it gives with the parser that there
-- is.
use wls_ingress.Base.{
  false, [], ◌∷◌, Option, none, some, ◌≡◌, refl, sym, ◌∙◌, ap, arith, inl, inr, In, In-perm,
  Option-cases, Bool-cases, if◌then◌else◌,
}
use wls_ingress.Base.Text.{Text, codes, ◌==◌, ==_iff}
use wls_ingress.Base.Int.{pos}
use wls_ingress.Base.Maps.{Map, lookup, lookup-insert, DistinctKeys, lookup_of_In, In_of_lookup}
use wls_ingress.Ingress.{IngressObject}
use wls_ingress.Annotations.{Error, Config}
use wls_ingress.Annotations.Extract.{
  is_location_denied, Parser, Entry, value, store_value, keep, run_parsers, Extracted, extract,
}
use mathlib.Core.List.{Permᴰ}
use mathlib.Core.List.Permᴰ

-- MapWithOverwrite reads the map by its keys, keeps the fields that the map has no key for, and sets
-- the settings of the proxy from theirs.
pub record IsMerge (merge : Map (Entry Config) → Extracted → Extracted) : Type 0 where
  pub reads :
      (d d' : Map (Entry Config)) (e : Extracted)
      → ((k : Text) → lookup k d ≡ lookup k d')
      → merge d e ≡ merge d' e
  pub sets_proxy :
      (c : Config) (e : Extracted)
      → merge ((codes "Proxy", value c) ∷ []) e ≡ record e { proxy = c }

module _ {V : Type 0} (ing : IngressObject) where
  -- The parser does not deny the location.
  abbrev pub Allows : Parser V → Type 0
  Allows parse = (err : Error) → (parse ing).1 ≡ some err → is_location_denied err ≡ false

  -- What a parser that does not deny leaves for its key.
  found_by : Option V × Option Error → Option (Entry V)
  found_by (val, some err) = none
  found_by (none, none) = none
  found_by (some v, none) = some (value v)

  first_of : Option (Entry V) → Option (Entry V) → Option (Entry V)
  first_of none y = y
  first_of (some x) y = some x

  keep_lem :
      (name k : Text) (val : Option V) (err : Option Error) (entries : Map (Entry V))
      → ((e : Error) → err ≡ some e → is_location_denied e ≡ false)
      → lookup k (keep name (val, err) entries) ≡ (
          if name == k then first_of (found_by (val, err)) (lookup k entries) else lookup k entries)
  unfolding keep store_value found_by first_of
  keep_lem name k none none entries h = ground arith
  keep_lem name k (some v) none entries h = ground (arith, lookup-insert name k (value v) entries)
  keep_lem name k val (some e) entries h = let allowed = h e refl in ground (arith, allowed)

  result_for : Option (Parser V) → Option (Entry V)
  result_for none = none
  result_for (some parse) = found_by (parse ing)

  -- A key has what its parser finds.
  run_parsers_lem :
      (k : Text) (parsers : Map (Parser V)) (entries : Map (Entry V))
      → DistinctKeys parsers
      → ((name : Text) (parse : Parser V) → In (name, parse) parsers → Allows parse)
      → lookup k (run_parsers ing parsers entries)
        ≡ first_of (result_for (lookup k parsers)) (lookup k entries)
  unfolding run_parsers lookup first_of result_for
  run_parsers_lem k [] entries d h = refl
  run_parsers_lem k ((name, parse) ∷ parsers) entries (fresh, d) h =
      let later =
        run_parsers_lem k parsers (keep name (parse ing) entries) d (λ n p i. h n p (inr i)) in
      let first = keep_lem name k (parse ing).0 (parse ing).1 entries (h name parse (inl refl)) in
      elim (Bool-cases (name == k)) [
        | inr other ↦ ground (arith, later, first, other)
        | inl same ↦
            let gone : lookup k parsers ≡ none = rw (← (==_iff name k).0 same) fresh in
            ground (arith, later, first, same, gone)
      ]

  lookup-perm :
      (k : Text) (parsers parsers' : Map (Parser V))
      → Permᴰ parsers parsers'
      → DistinctKeys parsers
      → DistinctKeys parsers'
      → lookup k parsers ≡ lookup k parsers'
  lookup-perm k parsers parsers' p d d' = elim (Option-cases (lookup k parsers)) [
    | inr (x, e) ↦
        e ∙ sym (lookup_of_In k x parsers' d' (In-perm (k, x) p (In_of_lookup k x parsers e)))
    | inl missing ↦ elim (Option-cases (lookup k parsers')) [
      | inl missing' ↦ missing ∙ sym missing'
      | inr (x, e) ↦
          let back =
            lookup_of_In k x parsers d
              (In-perm (k, x) (Permᴰ.symm p) (In_of_lookup k x parsers' e)) in
          absurd (ground (arith, back, missing))
    ]
  ]

-- If no parser denies the location, each parser has its own name and the merge meets its laws, then
-- Extract gives the same in whatever order it ranges over its parsers.
pub extract-order :
    (merge : Map (Entry Config) → Extracted → Extracted) (ing : IngressObject)
    (parsers parsers' : Map (Parser Config))
    → IsMerge merge
    → Permᴰ parsers parsers'
    → DistinctKeys parsers
    → DistinctKeys parsers'
    → ((name : Text) (parse : Parser Config) → In (name, parse) parsers → Allows ing parse)
    → extract merge parsers ing ≡ extract merge parsers' ing
unfolding extract
extract-order merge ing parsers parsers' laws p d d' h =
    laws.reads (run_parsers ing parsers []) (run_parsers ing parsers' [])
      (record { object = ing; proxy = record { body_size = []; read_timeout = pos 0 } })
      (λ k.
        run_parsers_lem ing k parsers [] d h
        ∙ ap (λ x. first_of ing (result_for ing x) (lookup k []))
            (lookup-perm ing k parsers parsers' p d d')
        ∙ sym (
            run_parsers_lem ing k parsers' [] d'
              (λ name parse i. h name parse (In-perm (name, parse) (Permᴰ.symm p) i))))
