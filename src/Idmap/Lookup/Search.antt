-- ===== src/Idmap/Lookup/Search.antt =====
-- What OS_ObjectIdSearch finds.
use hello_world_osal.Base.{
  ℕ, zero, suc, ◌+◌, ◌≤◌, ◌<◌, ◌≡◌, ◌≢◌, inl, inr, refl, sym, ap, ◌∙◌, arith, Bool, true, false,
  ◌&&◌, none, some, Bool-cases, Option-cases, if◌then◌else◌, subst,
}
use native.Mathlib.Decide.{ℕ_discrete}
use hello_world_osal.Idmap.Id.{is_defined, entry, get_max_for_object_type}
use hello_world_osal.Idmap.State.{Os}
use hello_world_osal.Idmap.Lookup.{Match, search_from, search}

module _ {K : Type 0} (t : ℕ) (match : Match) (s : Os K) where
  -- The object `i` is in use and matches.
  abbrev pub hits : ℕ → Bool
  hits i = let r = s.common_table (entry t i) in is_defined r.active_id && match i r

  search_from_step :
      (count i : ℕ)
      → search_from (suc count) t i match s
        ≡ (if hits i then some i else search_from count t (i + 1) match s)
  unfolding search_from
  search_from_step count i = refl

  search_from-some :
      (count i j : ℕ)
      → search_from count t i match s ≡ some j
      → (i ≤ j) × (j < i + count) × (hits j ≡ true)
  unfolding search_from
  search_from-some zero i j e = cc
  search_from-some (suc count) i j e = elim (Bool-cases (hits i)) [
    | inl h ↦
        let same : i ≡ j = ground (arith, h) in (omega arith, omega arith, ap hits (sym same) ∙ h)
    | inr h ↦
        let rest = search_from-some count (i + 1) j (ground (arith, h)) in
        (omega arith, omega arith, rest.2)
  ]

  search_from-none :
      (count i j : ℕ)
      → search_from count t i match s ≡ none
      → i ≤ j
      → j < i + count
      → hits j ≡ false
  unfolding search_from
  search_from-none zero i j e lo hi = absurd (omega arith)
  search_from-none (suc count) i j e lo hi = elim (ℕ_discrete i j) [
    | yes same ↦ subst (λ k. hits k ≡ false) same (ground arith)
    | no ne ↦ search_from-none count (i + 1) j (ground arith) (omega arith) (omega arith)
  ]

  pub search-some :
      (j : ℕ) → search t match s ≡ some j → (j < get_max_for_object_type t) × (hits j ≡ true)
  unfolding search
  search-some j e =
      let found = search_from-some (get_max_for_object_type t) 0 j e in (omega arith, found.2)

  pub search-none :
      search t match s ≡ none → (j : ℕ) → j < get_max_for_object_type t → hits j ≡ false
  unfolding search
  search-none e j h = search_from-none (get_max_for_object_type t) 0 j e (omega arith) (omega arith)

  -- The only object that matches is found.
  pub search-only :
      (i : ℕ)
      → i < get_max_for_object_type t
      → hits i ≡ true
      → ((j : ℕ) → j < get_max_for_object_type t → j ≢ i → hits j ≡ false)
      → search t match s ≡ some i
  search-only i h hit only = elim (Option-cases (search t match s)) [
    | inl e ↦ absurd (ground (arith, search-none e i h, hit))
    | inr (j, e) ↦ elim (ℕ_discrete j i) [
      | yes same ↦ e ∙ ap some same
      | no ne ↦ let (lt, other) = search-some j e in absurd (ground (arith, other, only j lt ne))
    ]
  ]
