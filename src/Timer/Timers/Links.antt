-- ===== src/Timer/Timers/Links.antt =====
-- What OS_DoTimerAdd and OS_TimerDelete (osapi-time.c) leave in the links of each timer.
use hello_world_osal.Base.{ℕ, ◌≡◌, ◌≢◌, refl, arith, Bool, true, false, ◌==◌, if◌then◌else◌}
use hello_world_osal.Idmap.Tables.{TimecbRecord}
use hello_world_osal.Timer.Timers.{link, unlink, set_next, set_prev}

module _ (table : ℕ → TimecbRecord) (i n j : ℕ) where
  next-set_next : (set_next table i n j).next_ref ≡ (if i == j then n else (table j).next_ref)
  unfolding set_next
  next-set_next = ground arith

  prev-set_next : (set_next table i n j).prev_ref ≡ (table j).prev_ref
  unfolding set_next
  prev-set_next = ground arith

  next-set_prev : (set_prev table i n j).next_ref ≡ (table j).next_ref
  unfolding set_prev
  next-set_prev = ground arith

  prev-set_prev : (set_prev table i n j).prev_ref ≡ (if i == j then n else (table j).prev_ref)
  unfolding set_prev
  prev-set_prev = ground arith

==_self : (i : ℕ) → (i == i) ≡ true
==_self i = ground arith

if_same {ℓ} : {A : Type ℓ} (b : Bool) (x : A) → (if b then x else x) ≡ x
if_same true x = refl
if_same false x = refl

ruleset links = (next-set_next, prev-set_next, next-set_prev, prev-set_prev, ==_self, if_same)

module _ (table : ℕ → TimecbRecord) where
  pub next-link :
      (n h j : ℕ)
      → (link n h table j).next_ref
        ≡ (if (table h).prev_ref == j then n else if n == j then h else (table j).next_ref)
  unfolding link
  next-link n h j = simp links refl

  pub prev-link :
      (n h j : ℕ)
      → n ≢ (table h).prev_ref
      → (link n h table j).prev_ref
        ≡ (if h == j then n else if n == j then (table h).prev_ref else (table j).prev_ref)
  unfolding link
  prev-link n h j ne =
      let other : ((table h).prev_ref == n) ≡ false = ground arith in simp (links, other) refl

  pub next-unlink :
      (i j : ℕ)
      → (unlink i table j).next_ref ≡ (
          if i == j
          then i
          else if (table i).prev_ref == j
          then (table i).next_ref
          else (table j).next_ref)
  unfolding unlink
  next-unlink i j = simp links refl

  pub prev-unlink :
      (i j : ℕ)
      → (unlink i table j).prev_ref ≡ (
          if i == j
          then i
          else if (table i).next_ref == j
          then (table i).prev_ref
          else (table j).prev_ref)
  unfolding unlink
  prev-unlink i j = simp links refl
