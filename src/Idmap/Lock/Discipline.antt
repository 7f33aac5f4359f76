-- ===== src/Idmap/Lock/Discipline.antt =====
-- Who owns a type's table after each step of the locking code.
use hello_world_osal.Base.{
  ℕ, zero, suc, ◌+◌, ◌<◌, ◌≡◌, ◌≢◌, refl, arith, ℤ, true, if◌then◌else◌, is_success,
}
use hello_world_osal.Idmap.ObjectType
use hello_world_osal.Idmap.State.{Os, Port, owner}
use hello_world_osal.Idmap.Lock.{
  LockMode, unlocked, global, exclusive, refcounted, self_owner, lock_global, unlock_global,
  try_refcount, try_exclusive, try_mode, try_lock, wait_turn, convert_loop, clear_bits,
  finish_convert, convert_lock,
}

-- What is assumed of the layer below for one type: its mutex can be taken, and a sleep that begins
-- with the table free ends, when the mutex is this task's again, with the table free.
pub record IsMutex {K : Type 0} (p : Port K) (t : ℕ) : Type 0 where
  pub in_range : t < ObjectType.user
  pub takes : is_success (p.lock_status t) ≡ true
  pub returns_free : (n : ℕ) (s : Os K) → owner s t ≡ 0 → owner (p.task_delay n s) t ≡ 0

module _ {K : Type 0} (p : Port K) where
  pub self_owner-pos : self_owner p ≢ 0
  unfolding self_owner
  self_owner-pos = ground arith

  -- Who holds the table when OS_ObjectIdConvertLock returns `code`.
  abbrev pub holder : LockMode → ℤ → ℕ
  holder unlocked code = 0
  holder refcounted code = 0
  holder global code = if is_success code then self_owner p else 0
  holder exclusive code = if is_success code then self_owner p else 0

  module _ (t : ℕ) (m : IsMutex p t) where
    pub owner-lock_global : (s : Os K) → owner s t ≡ 0 → owner (lock_global p t s) t ≡ self_owner p
    unfolding lock_global
    owner-lock_global s h = ground (arith, m.in_range, m.takes)

    pub owner-unlock_global :
        (s : Os K) → owner s t ≡ self_owner p → owner (unlock_global p t s) t ≡ 0
    unfolding unlock_global
    owner-unlock_global s h = ground (arith, m.in_range)

    owner-wait_turn :
        (n : ℕ) (s : Os K) → owner s t ≡ self_owner p → owner (wait_turn p t n s) t ≡ self_owner p
    unfolding wait_turn
    owner-wait_turn n s h =
        let u = unlock_global p t s in
        owner-lock_global (p.task_delay n u) (m.returns_free n u (owner-unlock_global s h))

    owner-try_lock :
        (mode : LockMode) (id e bits : ℕ) (s : Os K)
        → owner (try_lock p mode id e bits s).2 t ≡ owner s t
    unfolding try_lock try_mode try_refcount try_exclusive
    owner-try_lock unlocked id e bits s = ground arith
    owner-try_lock global id e bits s = ground arith
    owner-try_lock exclusive id e bits s = ground arith
    owner-try_lock refcounted id e bits s = ground arith

    owner-convert_loop :
        (fuel : ℕ) (mode : LockMode) (id e bits attempts : ℕ) (s : Os K)
        → owner s t ≡ self_owner p
        → owner (convert_loop p fuel mode t id e bits attempts s).2 t ≡ self_owner p
    unfolding convert_loop
    owner-convert_loop zero mode id e bits attempts s h = h
    owner-convert_loop (suc fuel) mode id e bits attempts s h = ground (
      arith,
      owner-try_lock mode id e bits s,
      owner-wait_turn (attempts + 1) (try_lock p mode id e bits s).2,
      owner-convert_loop fuel mode id e (try_lock p mode id e bits s).1 (attempts + 1)
          (wait_turn p t (attempts + 1) (try_lock p mode id e bits s).2),
    )

    owner-finish_convert :
        (mode : LockMode) (e : ℕ) (code : ℤ) (bits : ℕ) (s : Os K)
        → mode ≢ unlocked
        → owner s t ≡ self_owner p
        → owner (finish_convert p mode t e (code, bits, s)).1 t ≡ holder mode code
    unfolding finish_convert clear_bits
    owner-finish_convert unlocked e code bits s ne h = absurd (ne refl)
    owner-finish_convert refcounted e code bits s ne h =
        owner-unlock_global (clear_bits p e bits s) h
    owner-finish_convert exclusive e code bits s ne h =
        ground (arith, owner-unlock_global (clear_bits p e bits s) h)
    owner-finish_convert global e code bits s ne h =
        ground (arith, owner-unlock_global (clear_bits p e bits s) h)

    code-finish_convert :
        (mode : LockMode) (e : ℕ) (code : ℤ) (bits : ℕ) (s : Os K)
        → (finish_convert p mode t e (code, bits, s)).0 ≡ code
    unfolding finish_convert
    code-finish_convert unlocked e code bits s = refl
    code-finish_convert refcounted e code bits s = refl
    code-finish_convert exclusive e code bits s = refl
    code-finish_convert global e code bits s = refl

    -- If the mutex of the type works, OS_ObjectIdConvertLock entered with the table held keeps it
    -- exactly if it succeeds in the mode GLOBAL or EXCLUSIVE, and else has released it.
    pub owner-convert_lock :
        (mode : LockMode) (id e : ℕ) (s : Os K)
        → mode ≢ unlocked
        → owner s t ≡ self_owner p
        → let (code, s') = convert_lock p mode t id e s in owner s' t ≡ holder mode code
    unfolding convert_lock
    owner-convert_lock mode id e s ne h =
        let (code, bits, s') = convert_loop p 5 mode t id e 0 0 s in
        rw (code-finish_convert mode e code bits s')
          (owner-finish_convert mode e code bits s' ne (owner-convert_loop 5 mode id e 0 0 s h))
