-- ===== src/File/Usable.antt =====
-- A stream in use is found, and stays in use while the table is locked (osapi-idmap.c).
use hello_world_osal.Base.{ℕ, ◌≡◌, sym, ap, subst, ◌∙◌, arith, os_success}
use hello_world_osal.Idmap.ObjectType
use hello_world_osal.Idmap.Id.{ok, entry}
use hello_world_osal.Idmap.State.{Os, Port, CommonRecord, ObjtypeState}
use hello_world_osal.Idmap.Lock.{
  global, lock_global, unlock_global, initiate_lock, convert_loop, try_lock, try_mode,
  finish_convert, convert_lock,
}
use hello_world_osal.Idmap.Lookup.{convert_found, get_by_id}
use hello_world_osal.File.Reference.{
  IsUsable, lock_global-only, unlock_global-only, clear_bits-none,
}

module _ {K : Type 0} (p : Port K) where
  convert_lock-global :
      (t id e : ℕ) (s : Os K)
      → (s.common_table e).active_id ≡ id
      → (s.common_table e).flags ≡ 0
      → convert_lock p global t id e s ≡ (os_success, s)
  unfolding convert_lock finish_convert convert_loop try_lock try_mode
  convert_lock-global t id e s live clear = ground (arith, live, clear_bits-none p e s clear)

  pub get_by_id-here :
      (id i : ℕ) (s : Os K)
      → IsUsable p id i s
      → get_by_id p global ObjectType.stream id s ≡ (ok i, lock_global p ObjectType.stream s)
  unfolding get_by_id convert_found initiate_lock
  get_by_id-here id i s u =
      let t = ObjectType.stream in
      let table = ap (λ (q : Os K). q.common_table) (lock_global-only p t s) in
      let granted =
        convert_lock-global t id (entry t i) (lock_global p t s)
          (ap (λ (c : ℕ → CommonRecord). (c (entry t i)).active_id) table ∙ u.live)
          (ap (λ (c : ℕ → CommonRecord). (c (entry t i)).flags) table ∙ u.clear) in
      ground (arith, u.on, u.running, u.place, granted)

  pub IsUsable-owners :
      (id i : ℕ) (s : Os K) (o : ℕ → ObjtypeState) (k : K)
      → IsUsable p id i s
      → IsUsable p id i (record s { kernel = k; objtype_state = o })
  IsUsable-owners id i s o k u = record {
    on = u.on;
    running = u.running;
    place = u.place;
    live = u.live;
    clear = u.clear;
    few = u.few;
  }

  pub IsUsable-lock_global :
      (id i t : ℕ) (s : Os K) → IsUsable p id i s → IsUsable p id i (lock_global p t s)
  IsUsable-lock_global id i t s u =
      subst (IsUsable p id i) (sym (lock_global-only p t s))
        (IsUsable-owners id i s (lock_global p t s).objtype_state s.kernel u)

  pub IsUsable-unlock_global :
      (id i t : ℕ) (s : Os K) → IsUsable p id i s → IsUsable p id i (unlock_global p t s)
  IsUsable-unlock_global id i t s u =
      subst (IsUsable p id i) (sym (unlock_global-only p t s))
        (IsUsable-owners id i s (unlock_global p t s).objtype_state s.kernel u)
