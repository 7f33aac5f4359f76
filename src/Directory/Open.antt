-- ===== src/Directory/Open.antt =====
-- What a successful OS_DirectoryOpen (osapi-dir.c) leaves behind.
use hello_world_osal.Base.{
  zero, [], suc, ◌∷◌, ℕ, ◌-◌, ◌<◌, ◌≤◌, ◌≡◌, refl, sym, ap, ◌∙◌, subst, arith, ℤ, true, Option,
  none, some, Text, is_success, os_success, length, take, update_self, Bool-cases, eq_success, inl,
  inr,
}
use hello_world_osal.Idmap.ObjectType
use hello_world_osal.Idmap.Id.{Result, ok, fail, entry, to_type, get_max_for_object_type}
use hello_world_osal.Idmap.State.{Os, Port, CommonRecord}
use hello_world_osal.Idmap.Invariant.{Fits, IsConsistent}
use hello_world_osal.Idmap.Lock.{unlock_global}
use hello_world_osal.Idmap.Alloc.{
  notify_event, notify_defined, settle_new, finalize_new, allocate_new,
}
use hello_world_osal.Idmap.Alloc.Allocated.{Allocated, allocate_new-Allocated}
use hello_world_osal.Idmap.Alloc.Codes.{FailsBadly, allocate_new-FailsBadly}
use hello_world_osal.Idmap.Alloc.Settled.{IsTyped, finalize_new-ok, finalize_new-fail}
use hello_world_osal.Service.{build, run_locked}
use hello_world_osal.FileSys.{FileSysImpl, max_path_len}
use hello_world_osal.FileSys.Paths.{translate_path}
use hello_world_osal.FileSys.Find.{Translated, translate_path-Translated}
use hello_world_osal.Directory.{DirImpl, dir_store, open_local, directory_open}

module _ {K : Type 0} (p : Port K) where
  finalize_new-dir_table :
      (c : ℤ) (e : ℕ) (s : Os K) → (finalize_new p c e s).2.dir_table ≡ s.dir_table
  unfolding finalize_new settle_new unlock_global notify_defined notify_event
  finalize_new-dir_table c e s = ground arith

module _ {K : Type 0} where
  IsTyped-dir :
      (i : ℕ) (s : Os K)
      → Fits ObjectType.dir i (s.common_table (entry ObjectType.dir i)).active_id
      → IsTyped (entry ObjectType.dir i) s
  unfolding to_type
  IsTyped-dir i s f = omega (arith, f.kind)

take_all : (n : ℕ) (t : Text) → length t ≤ n → take n t ≡ t
take_all zero [] h = refl
take_all zero (x ∷ t) h = absurd (omega (arith, h))
take_all (suc n) [] h = refl
take_all (suc n) (x ∷ t) h = ap (λ u. x ∷ u) (take_all n t (omega (arith, h)))

module _ {K : Type 0} (p : Port K) (volumes : FileSysImpl K) (garbage : ℕ) (impl : DirImpl K) where
  -- The directory with this ID is in use: the layer below opened it under the local path, and its
  -- record holds the path.
  pub record Opened (path local : Text) (id : ℕ) (s' : Os K) : Type 0 where
    pub index : ℕ
    pub in_range : index < get_max_for_object_type ObjectType.dir
    pub fits : Fits ObjectType.dir index id
    pub issued : (s'.common_table (entry ObjectType.dir index)).active_id ≡ id
    pub held : s'.dir_table index ≡ path
    pub before : Os K
    pub opened : (impl.open_impl index local before).0 ≡ os_success

  build-Opened :
      (path local : Text) (i : ℕ) (s s1 : Os K)
      → length path < max_path_len
      → Allocated p ObjectType.dir i s s1
      → let (code, out, s') =
          build p ObjectType.dir (dir_store path) (λ j. impl.open_impl j local) (ok i, s1) in
        code ≡ os_success → (id : ℕ) × (out ≡ some id) × Opened path local id s'
  unfolding build dir_store
  build-Opened path local i s s1 short a done =
      let e = entry ObjectType.dir i in
      let s2 = dir_store path i s1 in
      let s3 = (run_locked (impl.open_impl i local s2) s2).1 in
      let status = (impl.open_impl i local s2).0 in
      elim (Bool-cases (is_success status)) [
        | inl fine ↦
            let (code, id, same) = finalize_new-ok p status e s3 fine (IsTyped-dir i s3 a.fits) in
            let dirs = finalize_new-dir_table p status e s3 in
            (
              (s1.common_table e).active_id,
              ap some id,
              record {
                index = i;
                in_range = a.in_range;
                fits = a.fits;
                issued = ap (λ (c : ℕ → CommonRecord). (c e).active_id) same.table;
                held =
                    ap (λ (t : ℕ → Text). t i) dirs
                    ∙ update_self s1.dir_table i (take (max_path_len - 1) path)
                    ∙ take_all (max_path_len - 1) path (omega (arith, short));
                before = s2;
                opened = sym code ∙ done;
              },
            )
        | inr bad ↦
            let (code, _, _) = finalize_new-fail p status e s3 bad in
            absurd (ground (arith, code, done, bad))
      ]

  allocate-Opened :
      (path local : Text) (s : Os K)
      → length path < max_path_len
      → let (code, out, s') =
          build p ObjectType.dir
            (dir_store path)
            (λ j. impl.open_impl j local)
            (allocate_new p ObjectType.dir none s) in
        code ≡ os_success → (id : ℕ) × (out ≡ some id) × Opened path local id s'
  unfolding build
  allocate-Opened path local s short done =
      outcome (allocate_new p ObjectType.dir none s) refl
        (allocate_new-FailsBadly p ObjectType.dir none s) done
    where
      outcome :
          (r : Result ℕ × Os K)
          → allocate_new p ObjectType.dir none s ≡ r
          → FailsBadly r
          → let (code, out, s') =
              build p ObjectType.dir (dir_store path) (λ j. impl.open_impl j local) r in
            code ≡ os_success → (id : ℕ) × (out ≡ some id) × Opened path local id s'
      outcome (ok i, s1) e bad q =
          let (a, _) = allocate_new-Allocated p ObjectType.dir none i s s1 e in
          build-Opened path local i s s1 short a q
      outcome (fail c, s1) e bad q = absurd (ground (arith, bad, q))

  translate_path-short :
      (path : Text) (s : Os K)
      → (translate_path p volumes garbage true (some path) s).0 ≡ os_success
      → length path < max_path_len
  unfolding translate_path
  translate_path-short path s done = ground (arith, done)

  -- An error of the translation is the call's.
  open_local-ok :
      (path : Text) (r : ℤ × Option Text × Os K)
      → (open_local p volumes garbage impl path r).0 ≡ os_success
      → r.0 ≡ os_success
  unfolding open_local
  open_local-ok path (code, none, s) done = done
  open_local-ok path (code, some local, s) done = elim (Bool-cases (is_success code)) [
    | inl fine ↦ eq_success code fine
    | inr bad ↦ absurd (ground (arith, bad, done))
  ]

  -- In a consistent table, OS_DirectoryOpen succeeds only on a path that stands for a local path
  -- on a mounted volume, and then hands out an ID of a directory in use, which the layer below
  -- opened under that local path and whose record holds the whole path.
  pub directory_open-Opened :
      (path : Text) (s : Os K)
      → IsConsistent s
      → let (code, out, s') = directory_open p volumes garbage impl true (some path) s in
        code ≡ os_success
        → (local : Text) × Translated s path local
          × ((id : ℕ) × (out ≡ some id) × Opened path local id s')
  unfolding directory_open open_local
  directory_open-Opened path s c done =
      let r = translate_path p volumes garbage true (some path) s in
      let ok_code = open_local-ok path r done in
      let (local, out, t) = translate_path-Translated p volumes garbage path s c ok_code in
      let same : r ≡ (os_success, some local, r.2) =
        ap (λ (k : ℤ). (k, r.1, r.2)) ok_code
        ∙ ap (λ (o : Option Text). (os_success, o, r.2)) out in
      let opened = allocate-Opened path local r.2 (translate_path-short path s ok_code) (
        sym (ap (λ (q : ℤ × Option Text × Os K). (open_local p volumes garbage impl path q).0) same)
        ∙ done) in
      (
        local,
        t,
        subst
            (λ (q : ℤ × Option Text × Os K).
              let (code, out', s') = open_local p volumes garbage impl path q in
              (id : ℕ) × (out' ≡ some id) × Opened path local id s')
            (sym same) opened,
      )
