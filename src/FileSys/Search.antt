-- ===== src/FileSys/Search.antt =====
-- Finding a volume by a path under OS_LOCK_MODE_GLOBAL (osapi-filesys.c).
use hello_world_osal.Base.{
  ℕ, zero, suc, ◌-◌, ◌<◌, ◌≡◌, ◌≢◌, ◌⊎◌, inl, inr, refl, sym, ap, ◌∙◌, arith, true, some, Text, [],
  ◌∷◌, ◌++◌, length, drop, starts_with, os_err_name_not_found, Option-cases,
}
use hello_world_osal.Idmap.ObjectType
use hello_world_osal.Idmap.Id.{ok, fail, entry, to_array_index, get_max_for_object_type}
use hello_world_osal.Idmap.State.{Os, Port, CommonRecord}
use hello_world_osal.Idmap.Frame.{lock_global-Same}
use hello_world_osal.Idmap.Invariant.{IsConsistent, SlotOk, to_array_index-Fits}
use hello_world_osal.Idmap.Lock.{global, lock_global, unlock_global, initiate_lock, clear_bits}
use hello_world_osal.Idmap.Lookup.{Match, search, get_by_search, release_lock}
use hello_world_osal.Service.Create.RoundTrip.{convert_found-global, active-clear_bits}
use hello_world_osal.FileSys.{local_index}

pub starts_with-eq : (v t : Text) → starts_with v t ≡ true → t ≡ v ++ drop (length v) t
unfolding starts_with drop
starts_with-eq [] t h = refl
starts_with-eq (b ∷ v) [] h = cc
starts_with-eq (b ∷ v) (c ∷ t) h =
    let same : b ≡ c = ground (arith, h) in
    let rest : starts_with v t ≡ true = ground (arith, h) in
    ap (λ x. x ∷ t) (sym same) ∙ ap (λ xs. b ∷ xs) (starts_with-eq v t rest)

pub length-drop : (n : ℕ) (t : Text) → length (drop n t) ≡ length t - n
unfolding drop
length-drop zero t = ground arith
length-drop (suc n) [] = ground arith
length-drop (suc n) (c ∷ t) = ground (arith, length-drop n t)

module _ {K : Type 0} (p : Port K) (t : ℕ) (match : Match) (s : Os K) where
  pub get_by_search-found :
      (i : ℕ)
      → search t match (lock_global p t s) ≡ some i
      → get_by_search p global t match s ≡ (ok i, clear_bits p (entry t i) 0 (lock_global p t s))
  unfolding get_by_search initiate_lock
  get_by_search-found i found =
      rw (get_by_search, found)
        (convert_found-global p t i (lock_global p t s)
          ((lock_global p t s).common_table (entry t i)).active_id refl)

  -- The search of the locked table decides.
  pub get_by_search-cases :
      ((i : ℕ) × (search t match (lock_global p t s) ≡ some i)
        × (get_by_search p global t match s
            ≡ (ok i, clear_bits p (entry t i) 0 (lock_global p t s))))
      ⊎ (get_by_search p global t match s
          ≡ (fail os_err_name_not_found, unlock_global p t (lock_global p t s)))
  unfolding get_by_search initiate_lock release_lock
  get_by_search-cases = elim (Option-cases (search t match (lock_global p t s))) [
    | inl missing ↦ inr (rw (get_by_search, missing) refl)
    | inr (i, found) ↦ inl (i, found, get_by_search-found i found)
  ]

module _ {K : Type 0} (p : Port K) (garbage : ℕ) where
  lock_global-volumes : (t : ℕ) (s : Os K) → (lock_global p t s).filesys_table ≡ s.filesys_table
  unfolding lock_global
  lock_global-volumes t s = ground arith

  abbrev pub held : ℕ → Os K → Os K
  held i s = clear_bits p (entry ObjectType.filesys i) 0 (lock_global p ObjectType.filesys s)

  held-active :
      (i e : ℕ) (s : Os K) → ((held i s).common_table e).active_id ≡ (s.common_table e).active_id
  held-active i e s =
      active-clear_bits p ObjectType.filesys (entry ObjectType.filesys i) e 0
        (lock_global p ObjectType.filesys s)
      ∙ ap (λ (c : ℕ → CommonRecord). (c e).active_id)
          (lock_global-Same p ObjectType.filesys s).table

  pub held-volumes : (i : ℕ) (s : Os K) → (held i s).filesys_table ≡ s.filesys_table
  unfolding clear_bits
  held-volumes i s = lock_global-volumes ObjectType.filesys s

  -- In a consistent table the ID of the entry that was found gives its index.
  pub local_index-found :
      (i : ℕ) (s : Os K)
      → IsConsistent s
      → i < get_max_for_object_type ObjectType.filesys
      → (s.common_table (entry ObjectType.filesys i)).active_id ≢ 0
      → local_index garbage i (held i s) ≡ i
  unfolding local_index
  local_index-found i s c h used = by_slot (c.slots ObjectType.filesys i h)
    where
      by_slot :
          SlotOk ObjectType.filesys i (s.common_table (entry ObjectType.filesys i)).active_id
          → local_index garbage i (held i s) ≡ i
      by_slot (inl free) = absurd (used free)
      by_slot (inr fits) =
          let e = entry ObjectType.filesys i in
          let index =
            ap (to_array_index ObjectType.filesys) (held-active i e s)
            ∙ (to_array_index-Fits ObjectType.filesys i (s.common_table e).active_id h fits).0 in
          rw (local_index, index) refl
