-- ===== src/Idmap/Lock/Granted.antt =====
-- The ID of an object on which a lock is granted.
use hello_world_osal.Base.{
  ℕ, zero, suc, ◌+◌, ◌≡◌, inl, inr, arith, ℤ, some, true, is_success, Option-cases,
}
use hello_world_osal.Idmap.State.{Os, Port}
use hello_world_osal.Idmap.Lock.{
  LockMode, unlocked, global, exclusive, refcounted, try_refcount, try_exclusive, try_mode,
  try_lock, wait_turn, convert_loop, clear_bits, finish_convert, convert_lock, unlock_global,
}

module _ {K : Type 0} (p : Port K) where
  abbrev Granted : ℕ → ℕ → ℤ → Os K → Type 0
  Granted id e code s = is_success code ≡ true → (s.common_table e).active_id ≡ id

  try_lock-Granted :
      (mode : LockMode) (id e bits : ℕ) (s : Os K)
      → let (verdict, bits', s') = try_lock p mode id e bits s in
        (code : ℤ) → verdict ≡ some code → Granted id e code s'
  unfolding try_lock try_mode try_exclusive try_refcount
  try_lock-Granted unlocked id e bits s code h = ground arith
  try_lock-Granted global id e bits s code h = ground arith
  try_lock-Granted exclusive id e bits s code h = ground arith
  try_lock-Granted refcounted id e bits s code h = ground arith

  convert_loop-Granted :
      (fuel : ℕ) (mode : LockMode) (t id e bits attempts : ℕ) (s : Os K)
      → let (code, bits', s') = convert_loop p fuel mode t id e bits attempts s in
        Granted id e code s'
  unfolding convert_loop
  convert_loop-Granted zero mode t id e bits attempts s = λ h. cc
  convert_loop-Granted (suc fuel) mode t id e bits attempts s =
      let (verdict, bits', s') = try_lock p mode id e bits s in
      elim (Option-cases verdict) [
        | inl more ↦ ground (
          arith,
          convert_loop-Granted fuel mode t id e bits' (attempts + 1)
              (wait_turn p t (attempts + 1) s'),
        )
        | inr (code, done) ↦ ground (arith, try_lock-Granted mode id e bits s code done)
      ]

  finish_convert-Granted :
      (mode : LockMode) (t id e : ℕ) (code : ℤ) (bits : ℕ) (s : Os K)
      → Granted id e code s
      → let (code', s') = finish_convert p mode t e (code, bits, s) in Granted id e code' s'
  unfolding finish_convert clear_bits unlock_global
  finish_convert-Granted unlocked t id e code bits s h = h
  finish_convert-Granted global t id e code bits s h = ground arith
  finish_convert-Granted exclusive t id e code bits s h = ground arith
  finish_convert-Granted refcounted t id e code bits s h = ground arith

  -- A lock that is granted stands on the object that has the ID asked for.
  pub convert_lock-Granted :
      (mode : LockMode) (t id e : ℕ) (s : Os K)
      → is_success (convert_lock p mode t id e s).0 ≡ true
      → let (code, s') = convert_lock p mode t id e s in (s'.common_table e).active_id ≡ id
  unfolding convert_lock
  convert_lock-Granted mode t id e s =
      let (code, bits, s') = convert_loop p 5 mode t id e 0 0 s in
      finish_convert-Granted mode t id e code bits s' (convert_loop-Granted 5 mode t id e 0 0 s)
