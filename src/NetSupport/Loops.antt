-- ===== src/NetSupport/Loops.antt =====
-- The two loops of TCPConnMgmt over the slots (src/NetSupport.c).
use native.Mathlib.Decide.{ℕ_discrete}
use hello_world_osal.Base.{
  ℕ, zero, suc, ◌+◌, ◌<◌, ◌≤◌, ◌≡◌, ◌≢◌, refl, sym, ap, ◌∙◌, subst, arith, ℤ, true, false, none,
  some, if◌then◌else◌,
}
use hello_world_osal.NetSupport.{
  released, pending, Slot, Net, is_allocated, is_finished, reap, reap_from, count_from, pick_from,
}

module _ (task_delete : ℕ → ℤ) where
  -- A slot that the loop does not pass, or that is not finished, is left alone.
  reap-other : (j i : ℕ) (m : Net) → i ≢ j → (reap task_delete j m).slots i ≡ m.slots i
  unfolding reap
  reap-other j i m ne = ground arith

  reap-unfinished :
      (j i : ℕ) (m : Net)
      → is_finished (m.slots i) ≡ false
      → (reap task_delete j m).slots i ≡ m.slots i
  unfolding reap
  reap-unfinished j i m h = ground arith

  -- A slot after the first loop: released and waiting for a connection if it was finished.
  abbrev pub taken_back : Slot → Slot
  taken_back x =
      if is_finished x then record x { alloc_status = released; init_status = pending } else x

  reap-here : (j : ℕ) (m : Net) → (reap task_delete j m).slots j ≡ taken_back (m.slots j)
  unfolding reap
  reap-here j m = ground arith

  -- A slot that is not finished is left alone.
  pub reap_from-unfinished :
      (count j i : ℕ) (m : Net)
      → is_finished (m.slots i) ≡ false
      → (reap_from task_delete count j m).slots i ≡ m.slots i
  unfolding reap_from
  reap_from-unfinished zero j i m h = refl
  reap_from-unfinished (suc count) j i m h =
      let kept = reap-unfinished j i m h in
      reap_from-unfinished count (j + 1) i (reap task_delete j m)
        (ap (λ (x : Slot). is_finished x) kept ∙ h)
      ∙ kept

  pub reap_from-free_conn_id :
      (count j : ℕ) (m : Net) → (reap_from task_delete count j m).free_conn_id ≡ m.free_conn_id
  unfolding reap_from reap
  reap_from-free_conn_id zero j m = refl
  reap_from-free_conn_id (suc count) j m =
      reap_from-free_conn_id count (j + 1) (reap task_delete j m) ∙ ground arith

  reap_from-before :
      (count j i : ℕ) (m : Net) → i < j → (reap_from task_delete count j m).slots i ≡ m.slots i
  unfolding reap_from
  reap_from-before zero j i m h = refl
  reap_from-before (suc count) j i m h =
      reap_from-before count (j + 1) i (reap task_delete j m) (omega arith)
      ∙ reap-other j i m (omega arith)

  pub reap_from-here :
      (count j i : ℕ) (m : Net)
      → j ≤ i
      → i < j + count
      → (reap_from task_delete count j m).slots i ≡ taken_back (m.slots i)
  unfolding reap_from
  reap_from-here zero j i m low high = absurd (omega arith)
  reap_from-here (suc count) j i m low high = elim (ℕ_discrete i j) [
    | yes e ↦
        reap_from-before count (j + 1) i (reap task_delete j m) (omega arith)
        ∙ subst (λ k. (reap task_delete j m).slots k ≡ taken_back (m.slots k)) (sym e)
            (reap-here j m)
    | no ne ↦
        reap_from-here count (j + 1) i (reap task_delete j m) (omega arith) (omega arith)
        ∙ ap taken_back (reap-other j i m ne)
  ]

-- Only the slots count.
pub count_from-slots :
    (count j f a : ℕ) (m : Net)
    → count_from count j (record m { free_conn_id = f; active_connections = a })
      ≡ count_from count j m
unfolding count_from
count_from-slots zero j f a m = refl
count_from-slots (suc count) j f a m = ground (arith, count_from-slots count (j + 1) f a m)

pub pick_from-some :
    (count j i : ℕ) (m : Net)
    → pick_from count j m ≡ some i
    → (i < j + count) × (is_allocated (m.slots i) ≡ false)
unfolding pick_from
pick_from-some zero j i m e = cc
pick_from-some (suc count) j i m e = ground (arith, pick_from-some count (j + 1) i m)

pub pick_from-none :
    (count j i : ℕ) (m : Net)
    → pick_from count j m ≡ none
    → j ≤ i
    → i < j + count
    → is_allocated (m.slots i) ≡ true
unfolding pick_from
pick_from-none zero j i m e low high = absurd (omega arith)
pick_from-none (suc count) j i m e low high = ground (arith, pick_from-none count (j + 1) i m)
