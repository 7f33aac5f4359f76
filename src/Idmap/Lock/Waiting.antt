-- ===== src/Idmap/Lock/Waiting.antt =====
-- Locks in the mode EXCLUSIVE, and the waiting for them.
use hello_world_osal.Base.{
  ℕ, zero, suc, ◌+◌, ◌≤◌, ◌<◌, ◌≡◌, inl, inr, arith, ℤ, some, true, is_success, os_success,
  Option-cases,
}
use hello_world_osal.Idmap.State.{Os, Port}
use hello_world_osal.Idmap.Lock.{
  LockMode, exclusive, try_exclusive, try_mode, try_lock, wait_turn, convert_loop, clear_bits,
  finish_convert, convert_lock,
}

module _ {K : Type 0} (p : Port K) where
  -- Five rounds are enough for the loop of OS_ObjectIdConvertLock: with more fuel it does the
  -- same.
  convert_loop_fuel :
      (fuel extra : ℕ) (mode : LockMode) (t id e bits attempts : ℕ) (s : Os K)
      → 0 < fuel
      → 5 ≤ fuel + attempts
      → convert_loop p (extra + fuel) mode t id e bits attempts s
        ≡ convert_loop p fuel mode t id e bits attempts s
  unfolding convert_loop
  convert_loop_fuel zero extra mode t id e bits attempts s pos enough = absurd (omega arith)
  convert_loop_fuel (suc fuel) extra mode t id e bits attempts s pos enough =
      let more : extra + suc fuel ≡ suc (extra + fuel) = omega arith in
      rw more (
        ground (
          arith,
          convert_loop_fuel fuel extra mode t id e (try_lock p mode id e bits s).1 (attempts + 1)
              (wait_turn p t (attempts + 1) (try_lock p mode id e bits s).2),
        ))

  -- Success in the mode EXCLUSIVE: the ID still stands, and nobody refers to the object.
  abbrev pub Alone : ℕ → ℕ → ℤ → Os K → Type 0
  Alone id e code s =
      is_success code ≡ true
      → ((s.common_table e).active_id ≡ id) × ((s.common_table e).refcount ≡ 0)

  try_lock-Alone :
      (id e bits : ℕ) (s : Os K)
      → let (verdict, bits', s') = try_lock p exclusive id e bits s in
        (code : ℤ) → verdict ≡ some code → Alone id e code s'
  unfolding try_lock try_mode try_exclusive
  try_lock-Alone id e bits s code h = ground arith

  convert_loop-Alone :
      (fuel t id e bits attempts : ℕ) (s : Os K)
      → let (code, bits', s') = convert_loop p fuel exclusive t id e bits attempts s in
        Alone id e code s'
  unfolding convert_loop
  convert_loop-Alone zero t id e bits attempts s = λ h. cc
  convert_loop-Alone (suc fuel) t id e bits attempts s =
      let (verdict, bits', s') = try_lock p exclusive id e bits s in
      elim (Option-cases verdict) [
        | inl more ↦ ground (
          arith,
          convert_loop-Alone fuel t id e bits' (attempts + 1) (wait_turn p t (attempts + 1) s'),
        )
        | inr (code, done) ↦ ground (arith, try_lock-Alone id e bits s code done)
      ]

  clear_bits-Alone :
      (id e : ℕ) (code : ℤ) (bits : ℕ) (s : Os K)
      → Alone id e code s
      → Alone id e code (clear_bits p e bits s)
  unfolding clear_bits
  clear_bits-Alone id e code bits s h = ground arith

  -- An EXCLUSIVE lock is granted only on an object that still has the ID asked for and that nobody
  -- refers to, whatever the other tasks did during the waits.
  pub exclusive-Alone :
      (t id e : ℕ) (s : Os K)
      → (convert_lock p exclusive t id e s).0 ≡ os_success
      → let (code, s') = convert_lock p exclusive t id e s in
        ((s'.common_table e).active_id ≡ id) × ((s'.common_table e).refcount ≡ 0)
  unfolding convert_lock finish_convert
  exclusive-Alone t id e s h =
      let (code, bits, s') = convert_loop p 5 exclusive t id e 0 0 s in
      let kept = clear_bits-Alone id e code bits s' (convert_loop-Alone 5 t id e 0 0 s) in
      ground (arith, kept)
