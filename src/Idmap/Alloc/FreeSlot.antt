-- ===== src/Idmap/Alloc/FreeSlot.antt =====
-- The search of OS_ObjectIdFindNext for a free place.
use native.Mathlib.Nat.{mod-add-mod, mod-eq_of_lt, mod-lt, mod-mod, add-mod_right}
use native.Mathlib.Decide.{dec_le}
use hello_world_osal.Base.{
  ℕ, zero, suc, ◌+◌, ◌-◌, ◌%◌, ◌^◌, ◌≤◌, ◌<◌, ◌≡◌, ◌≢◌, sym, ap, ◌∙◌, arith, none, some, Bool,
  false, not, leb, if◌then◌else◌, subst,
}
use hello_world_osal.Idmap.Id.{is_defined, entry, object_index_mask}
use hello_world_osal.Idmap.State.{Os}
use hello_world_osal.Idmap.Alloc.{find_free}

-- `++idvalue`, back to the place's own number at the end of the serial numbers.
abbrev next_value : ℕ → ℕ → ℕ
next_value max_id v = if leb object_index_mask (v + 1) then (v + 1) % max_id else v + 1

module _ (max_id : ℕ) (some_places : 0 < max_id) (few : max_id ≤ 64) where
  next_value-lt : (v : ℕ) → v < 2 ^ 16 → next_value max_id v < object_index_mask
  next_value-lt v h = ground (arith, mod-lt (v + 1) some_places)

  next_value-mod : (v : ℕ) → next_value max_id v % max_id ≡ (v + 1) % max_id
  next_value-mod v = ground (arith, mod-mod (v + 1) max_id)

  -- The distance from the place `start` to the place `i`, going round.
  distance : ℕ → ℕ → ℕ
  distance start i = if leb start i then i - start else i + max_id - start

  distance-lt : (start i : ℕ) → start < max_id → i < max_id → distance start i < max_id
  unfolding distance
  distance-lt start i hs hi = ground arith

  distance_arrives :
      (start i : ℕ) → start < max_id → i < max_id → (start + distance start i) % max_id ≡ i
  unfolding distance
  distance_arrives start i hs hi = elim (dec_le start i) [
    | yes before ↦
        let sum : start + (i - start) ≡ i = omega arith in
        ground (arith, sum, ap (λ (k : ℕ). k % max_id) sum, mod-eq_of_lt hi)
    | no after ↦
        let sum : start + (i + max_id - start) ≡ i + max_id = omega arith in
        ground (arith, sum, ap (λ (k : ℕ). k % max_id) sum, mod-eq_of_lt hi, add-mod_right i max_id)
  ]

  module _ {K : Type 0} (t : ℕ) (s : Os K) where
    is_free : ℕ → Bool
    is_free i = not (is_defined (s.common_table (entry t i)).active_id)

    find_free_step :
        (count v : ℕ)
        → v < 2 ^ 16
        → find_free (suc count) t max_id v s ≡ (
            if is_free ((v + 1) % max_id)
            then some (next_value max_id v, (v + 1) % max_id)
            else find_free count t max_id (next_value max_id v) s)
    unfolding find_free is_free
    find_free_step count v h = let small : (v + 1) % 2 ^ 32 ≡ v + 1 = omega arith in rw small

    -- A place that is found is free, in range, and where its serial number belongs.
    pub find_free-some :
        (count v n i : ℕ)
        → v < 2 ^ 16
        → find_free count t max_id v s ≡ some (n, i)
        → (i < max_id)
          × (n < object_index_mask)
          × (n % max_id ≡ i)
          × ((s.common_table (entry t i)).active_id ≡ 0)
    unfolding is_free find_free
    find_free-some zero v n i h e = cc
    find_free-some (suc count) v n i h e = ground (
      arith,
      find_free_step count v h,
      next_value-lt v h,
      next_value-mod v,
      mod-lt (v + 1) some_places,
      find_free-some count (next_value max_id v) n i,
    )

    -- If none is found, the `count` places from the one after `v` on are all taken.
    find_free-none :
        (count v k : ℕ)
        → v < 2 ^ 16
        → find_free count t max_id v s ≡ none
        → k < count
        → is_free ((v + 1 + k) % max_id) ≡ false
    find_free-none zero v k h e lt = absurd (omega arith)
    find_free-none (suc count) v zero h e lt =
        let here : v + 1 + 0 ≡ v + 1 = omega arith in
        rw here (ground (arith, find_free_step count v h))
    find_free-none (suc count) v (suc k) h e lt = rw (← same_place) (
        find_free-none count w k (omega (arith, next_value-lt v h))
          (ground (arith, find_free_step count v h)) (omega arith))
      where
        w : ℕ
        w = next_value max_id v

        same_place : (w + 1 + k) % max_id ≡ (v + 1 + suc k) % max_id
        same_place =
            let left : w + 1 + k ≡ w + (1 + k) = omega arith in
            let right : v + 1 + suc k ≡ v + 1 + (1 + k) = omega arith in
            rw (left, right)
              (sym (mod-add-mod w max_id (1 + k))
                ∙ ap (λ r. (r + (1 + k)) % max_id) (next_value-mod v)
                ∙ mod-add-mod (v + 1) max_id (1 + k))

    -- A search that comes back with nothing has looked at every place.
    pub find_free-none_all :
        (v i : ℕ)
        → v < 2 ^ 16
        → find_free max_id t max_id v s ≡ none
        → i < max_id
        → (s.common_table (entry t i)).active_id ≢ 0
    unfolding is_free
    find_free-none_all v i h e lt =
        let start = (v + 1) % max_id in
        let in_range = mod-lt (v + 1) some_places in
        let k = distance start i in
        let there = sym (mod-add-mod (v + 1) max_id k) ∙ distance_arrives start i in_range lt in
        let taken = find_free-none max_id v k h e (distance-lt start i in_range lt) in
        ground (arith, subst (λ j. is_free j ≡ false) there taken)
