-- ===== src/Redis/Sweeping.antt =====
-- The loops of Clean and RemoveEndpoint: what they delete, and what is left of a key.
use wls_ingress.Base.{Bool, true, false, List, [], ◌∷◌, none, some, ◌≡◌, ◌≢◌, ◌↔◌, In, In-perm}
use wls_ingress.Base.{refl, ◌∙◌, arith, inl, inr, Bool-cases, if◌then◌else◌}
use wls_ingress.Base.Text.{Text, has_prefix, ◌==◌, ==_iff, ==_refl}
use wls_ingress.Base.Maps.{Map}
use wls_ingress.Redis.{Client, get_all_entries, delete_entries, contains, create_namespaced}
use wls_ingress.Redis.Laws.{IsRedis, IsReliable, IsLiteral}
use wls_ingress.Redis.Entries.{get_all_entries_sound, view-get_all_entries}
use mathlib.Core.List.{Permᴰ}
use mathlib.Core.List.Permᴰ

-- A range over the map of the entries visits each once, in some order.
abbrev pub IsEntryOrder : (Map Text → Map Text) → Type 0
IsEntryOrder order = (m : Map Text) → Permᴰ (order m) m

pub contains_iff : (a : List Text) (x : Text) → (contains a x ≡ true) ↔ In x a
unfolding contains
contains_iff [] x = (λ h. cc, λ h. elim h [ ])
contains_iff (n ∷ a) x = (
  λ h. elim (Bool-cases (x == n)) [
    | inl e ↦ inl ((==_iff x n).0 e)
    | inr e ↦ inr ((contains_iff a x).0 (ground arith))
  ],
  λ h. elim h [
    | inl e ↦ ground (arith, ==_iff x n)
    | inr i ↦ let k = (contains_iff a x).1 i in ground arith
  ],
)

module _ (c : Client) (redis : IsRedis c) (prefix : Text) (goes : Text → Bool) where
  open redis use {view}

  abbrev step : Text → Text → c.State → c.State
  step k v s = if goes v then (c.del k s).1 else s

  step_kept :
      (k v j : Text) (s : c.State) → (goes v ≡ true → k ≢ j) → view (step k v s) j ≡ view s j
  step_kept k v j s h = elim (Bool-cases (goes v)) [
    | inl e ↦ rw e (redis.del_other k s j (h e))
    | inr e ↦ rw e
  ]

  step_gone : (k v j : Text) (s : c.State) → view s j ≡ none → view (step k v s) j ≡ none
  step_gone k v j s h = elim (Bool-cases (goes v)) [
    | inr e ↦ rw e h
    | inl e ↦ elim (Bool-cases (k == j)) [
      | inr n ↦ rw e (redis.del_other k s j (λ same. cc (rw (same, ==_refl) at n)) ∙ h)
      | inl same ↦
          rw (e, ← (==_iff k j).0 same)
            (elim (redis.del_failed k s) [
              | inl g ↦ g
              | inr g ↦ g ∙ rw (← (==_iff k j).0 same) at h
            ])
    ]
  ]

  -- A key that no entry to be deleted names keeps its value.
  delete_entries_kept :
      (m : Map Text) (s : c.State) (j : Text)
      → ((v : Text) → In (j, v) m → goes v ≡ false)
      → view (delete_entries c prefix goes m s) j ≡ view s j
  unfolding delete_entries
  delete_entries_kept [] s j h = refl
  delete_entries_kept ((k, v) ∷ m) s j h =
      delete_entries_kept m (step k v s) j (λ w i. h w (inr i))
      ∙ step_kept k v j s (λ e same. cc (h v (inl (rw same))))

  pub delete_entries_gone :
      (m : Map Text) (s : c.State) (j : Text)
      → view s j ≡ none
      → view (delete_entries c prefix goes m s) j ≡ none
  unfolding delete_entries
  delete_entries_gone [] s j h = h
  delete_entries_gone ((k, v) ∷ m) s j h =
      delete_entries_gone m (step k v s) j (step_gone k v j s h)

  delete_entries_deletes :
      IsReliable c
      → (m : Map Text) (s : c.State) (j w : Text) → In (j, w) m
      → goes w ≡ true
      → view (delete_entries c prefix goes m s) j ≡ none
  unfolding delete_entries
  delete_entries_deletes works [] s j w i g = elim i [ ]
  delete_entries_deletes works ((k, v) ∷ m) s j w (inr i) g =
      delete_entries_deletes works m (step k v s) j w i g
  delete_entries_deletes works ((k, v) ∷ m) s j w (inl e) g =
      let first : j ≡ k = cc in
      let second : w ≡ v = cc in
      delete_entries_gone m (step k v s) j
        (rw (← second, g, first) (redis.del_value k s (works.del_works k s)))

  -- What a round of getAllEntries and deletions leaves of a key.
  module _ (literal : IsLiteral (create_namespaced prefix)) (order : Map Text → Map Text)
      (o : IsEntryOrder order) where
    pub sweep_kept :
        (s : c.State) (m : Map Text) (j : Text)
        → (get_all_entries c prefix s).0 ≡ some m
        → ((v : Text)
            → view s j ≡ some v
            → has_prefix j (create_namespaced prefix) ≡ true
            → goes v ≡ false)
        → view (delete_entries c prefix goes (order m) (get_all_entries c prefix s).1) j ≡ view s j
    sweep_kept s m j e h =
        delete_entries_kept (order m) (get_all_entries c prefix s).1 j (λ v i.
          let (found, space) =
            get_all_entries_sound c redis prefix literal s m e (j, v) (In-perm (j, v) (o m) i) in
          h v found space)
        ∙ view-get_all_entries c redis prefix s j

    pub sweep_deletes :
        IsReliable c
        → (s : c.State) (m : Map Text) (j v : Text) → In (j, v) m
        → goes v ≡ true
        → view (delete_entries c prefix goes (order m) (get_all_entries c prefix s).1) j ≡ none
    sweep_deletes works s m j v i g =
        delete_entries_deletes works (order m) (get_all_entries c prefix s).1 j v
          (In-perm (j, v) (Permᴰ.symm (o m)) i) g
