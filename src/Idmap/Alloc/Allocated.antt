-- ===== src/Idmap/Alloc/Allocated.antt =====
-- OS_ObjectIdAllocateNew, seen from its result.
use hello_world_osal.Base.{
  ℕ, ◌<◌, ◌≡◌, ◌≢◌, sym, ap, ◌∙◌, subst, arith, true, false, ◌&&◌, Option, none, some, Text,
}
use hello_world_osal.Idmap.ObjectType
use hello_world_osal.Idmap.Id.{Result, ok, fail, get_max_for_object_type, entry, is_defined}
use hello_world_osal.Idmap.State.{Os, Port, CommonRecord, resource_allocated, shutdown_magic_number}
use hello_world_osal.Idmap.Invariant.{Fits}
use hello_world_osal.Idmap.Frame.{Same, lock_global-Same, notify_event-Same}
use hello_world_osal.Idmap.Lock.{lock_global}
use hello_world_osal.Idmap.Lookup.{object_name_match}
use hello_world_osal.Idmap.Lookup.Search.{hits, search-none}
use hello_world_osal.Idmap.Alloc.{
  is_taken, announce, find_next, allocate_locked, unlock_failed, allocate_new,
}
use hello_world_osal.Idmap.Alloc.Issue.{find_next-Issued, Issued-Fits}

module _ {K : Type 0} (p : Port K) (t : ℕ) where
  -- What a successful allocation of object `i` has done.
  pub record Allocated (i : ℕ) (s s' : Os K) : Type 0 where
    pub in_range : i < get_max_for_object_type t
    pub was_free : (s.common_table (entry t i)).active_id ≡ 0
    pub fits : Fits t i (s'.common_table (entry t i)).active_id
    pub unreferenced : (s'.common_table (entry t i)).refcount ≡ 0
    pub others : (e : ℕ) → e ≢ entry t i → s'.common_table e ≡ s.common_table e
    pub on : s'.initialized ≡ true
    pub running : s'.shutdown_flag ≢ shutdown_magic_number
    pub known_type : t < ObjectType.user

  unlock_failed-ok :
      (r : Result ℕ × Os K) (i : ℕ) (s' : Os K) → unlock_failed p t r ≡ (ok i, s') → r ≡ (ok i, s')
  unfolding unlock_failed
  unlock_failed-ok (ok j, s) i s' e = e
  unlock_failed-ok (fail c, s) i s' e = absurd (ground arith)

  announce-ok :
      (r : Result ℕ × Os K) (i : ℕ) (s' : Os K)
      → announce t r ≡ (ok i, s')
      → (s0 : Os K) × (r ≡ (ok i, s0)) × Same s0 s'
  unfolding announce
  announce-ok (fail c, s) i s' e = absurd (ground arith)
  announce-ok (ok j, s) i s' e = (
    s,
    ground arith,
    subst (Same s) (ap (λ (r : Result ℕ × Os K). r.1) e)
        (notify_event-Same resource_allocated (s.common_table (entry t j)).active_id s),
  )

  -- The states at the lock, after the search for a place, and at the end.
  allocated :
      (i : ℕ) (s s0 s1 s' : Os K)
      → Same s s0
      → find_next p t s0 ≡ (ok i, s1)
      → Same s1 s'
      → s.initialized ≡ true
      → s.shutdown_flag ≢ shutdown_magic_number
      → t < ObjectType.user
      → Allocated i s s'
  allocated i s s0 s1 s' locked e told on running known =
      let d = find_next-Issued p t i s0 s1 e in
      let at_end = λ (g : ℕ). ap (λ (c : ℕ → CommonRecord). c g) told.table in
      let at_start = λ (g : ℕ). ap (λ (c : ℕ → CommonRecord). c g) locked.table in
      record {
        in_range = d.in_range;
        was_free = ap (λ (r : CommonRecord). r.active_id) (sym (at_start (entry t i))) ∙ d.was_free;
        fits =
            subst (Fits t i) (ap (λ (r : CommonRecord). r.active_id) (sym (at_end (entry t i))))
              (Issued-Fits p t i s0 s1 d);
        unreferenced =
            ap (λ (r : CommonRecord). r.refcount) (at_end (entry t i)) ∙ d.new.unreferenced;
        others = λ g ne. at_end g ∙ d.new.others g ne ∙ at_start g;
        on = told.on ∙ ap (λ (o : Os K). o.initialized) d.new.rest ∙ locked.on ∙ on;
        running =
            subst (λ f. f ≢ shutdown_magic_number)
              (sym (told.flag ∙ ap (λ (o : Os K). o.shutdown_flag) d.new.rest ∙ locked.flag))
              running;
        known_type = known;
      }

  allocate_locked-ok :
      (name : Option Text) (i : ℕ) (s s' : Os K)
      → allocate_locked p t name s ≡ (ok i, s')
      → (is_taken t name s ≡ none) × (announce t (find_next p t s) ≡ (ok i, s'))
  unfolding allocate_locked
  allocate_locked-ok name i s s' e = ground arith

  abbrev pub NameIsFree : Option Text → Os K → Type 0
  NameIsFree name s =
      (text : Text) (j : ℕ)
      → name ≡ some text
      → j < get_max_for_object_type t
      → hits t (object_name_match text) s j ≡ false

  is_taken-none :
      (name : Option Text) (s s0 : Os K) → Same s s0 → is_taken t name s0 ≡ none → NameIsFree name s
  unfolding is_taken
  is_taken-none name s s0 locked e text j named h =
      let m = object_name_match text in
      sym (
        ap (λ (c : ℕ → CommonRecord). is_defined (c (entry t j)).active_id && m j (c (entry t j)))
          locked.table)
      ∙ search-none t m s0 (ap (λ n. is_taken t n s0) (sym named) ∙ e) j h

  allocate_new-cases :
      (name : Option Text) (i : ℕ) (s s' : Os K)
      → allocate_new p t name s ≡ (ok i, s')
      → (s.initialized ≡ true)
        × (s.shutdown_flag ≢ shutdown_magic_number)
        × (t < ObjectType.user)
        × (unlock_failed p t (allocate_locked p t name (lock_global p t s)) ≡ (ok i, s'))
  unfolding allocate_new
  allocate_new-cases name i s s' e = ground arith

  -- A successful allocation, and that no object in use had the name before.
  pub allocate_new-Allocated :
      (name : Option Text) (i : ℕ) (s s' : Os K)
      → allocate_new p t name s ≡ (ok i, s')
      → Allocated i s s' × NameIsFree name s
  allocate_new-Allocated name i s s' e =
      let (on, running, known, r) = allocate_new-cases name i s s' e in
      let s0 = lock_global p t s in
      let locked = lock_global-Same p t s in
      let (free, told) = allocate_locked-ok name i s0 s' (unlock_failed-ok _ i s' r) in
      let (s1, found, same) = announce-ok (find_next p t s0) i s' told in
      (
        allocated i s s0 s1 s' locked found same on running known,
        is_taken-none name s s0 locked free,
      )
