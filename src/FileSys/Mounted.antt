-- ===== src/FileSys/Mounted.antt =====
-- The paths that OS_TranslatePath translates once OS_mount has mounted a volume (osapi-filesys.c).
use native.Mathlib.Decide.{ℕ_discrete}
use hello_world_osal.Base.{
  ℕ, ◌<◌, ◌≡◌, ◌≢◌, ◌⊎◌, inl, inr, refl, sym, ap, ◌∙◌, subst, arith, ℤ, Bool, true, false, Option,
  some, Text, [], ◌∷◌, ◌++◌, length, bit_and, slash, char_at, starts_with, after_last_slash,
  os_success,
}
use hello_world_osal.Idmap.ObjectType
use hello_world_osal.Idmap.Id.{entry, get_max_for_object_type}
use hello_world_osal.Idmap.Tables.{FilesysRecord}
use hello_world_osal.Idmap.State.{zero_record, Os, Port, CommonRecord}
use hello_world_osal.Idmap.Frame.{lock_global-Same}
use hello_world_osal.Idmap.Invariant.{SlotOk, IsConsistent}
use hello_world_osal.Idmap.Lock.{global, lock_global}
use hello_world_osal.Idmap.Lookup.{search, get_by_search}
use hello_world_osal.Idmap.Lookup.Search.{search-only}
use hello_world_osal.FileSys.{
  FileSysImpl, max_path_len, max_file_name, max_local_path_len, is_mounted_virtual, search_path,
  find_virt_mount_point,
}
use hello_world_osal.FileSys.Calls.{mount_volume}
use hello_world_osal.FileSys.Paths.{local_path, translate_found, translate_path}
use hello_world_osal.FileSys.Search.{get_by_search-found}
use hello_world_osal.FileSys.Find.{char_at-drop, translate_found-ok}
use hello_world_osal.FileSys.Stages.{
  KeepsFlags, flags_of, ready, mounted, mount_volume-Stage, mount_volume-local_path, drop-++,
}

starts_with-++ : (a b : Text) → starts_with a (a ++ b) ≡ true
unfolding starts_with
starts_with-++ [] b = refl
starts_with-++ (x ∷ a) b = ground (arith, starts_with-++ a b)

char_at-++ : (a b : Text) → char_at (length a) (a ++ b) ≡ char_at 0 b
char_at-++ a b = sym (char_at-drop (length a) (a ++ b)) ∙ ap (char_at 0) (drop-++ a b)

-- A path that starts with a slash starts with it whatever follows.
first-slash : (a b : Text) → char_at 0 a ≡ slash → (char_at 0 (a ++ b) ≡ slash) × (0 < length a)
unfolding char_at
first-slash [] b h = absurd (omega (arith, h))
first-slash (x ∷ a) b h = (h, omega arith)

-- A volume with the mount point matches the path.
matches-mountpoint :
    (table : ℕ → FilesysRecord) (mountpoint rest : Text) (i : ℕ) (r : CommonRecord)
    → bit_and (table i).flags is_mounted_virtual ≢ 0
    → (table i).virtual_mountpt ≡ mountpoint
    → char_at 0 mountpoint ≡ slash
    → (char_at 0 rest ≡ slash) ⊎ (char_at 0 rest ≡ 0)
    → find_virt_mount_point table (mountpoint ++ rest) i r ≡ true
unfolding find_virt_mount_point
matches-mountpoint table mountpoint rest i r visible same root next = ground (
  arith,
  visible,
  ap length same,
  (first-slash mountpoint rest root).1,
  ap (λ v. starts_with v (mountpoint ++ rest)) same ∙ starts_with-++ mountpoint rest,
  ap (λ (v : Text). char_at (length v) (mountpoint ++ rest)) same ∙ char_at-++ mountpoint rest,
  next,
)

module _ {K : Type 0} (impl : FileSysImpl K) (p : Port K) (garbage : ℕ) where
  -- The guards that a path passes.
  record IsPath (path name : Text) : Type 0 where
    short : length path < max_path_len
    last : after_last_slash path ≡ some name
    small : length name < max_file_name
    root : char_at 0 path ≡ slash

  translate_path-guards :
      (path name : Text) (s : Os K)
      → IsPath path name
      → translate_path p impl garbage true (some path) s
        ≡ translate_found p impl garbage path
            (get_by_search p global ObjectType.filesys (search_path path s) s)
  unfolding translate_path
  translate_path-guards path name s g = ground (arith, g.short, g.last, g.small, g.root)

  -- Where one volume in use alone matches a path, the path becomes the local one on it.
  translate_path-only :
      (path name : Text) (i : ℕ) (s : Os K)
      → IsPath path name
      → IsConsistent s
      → i < get_max_for_object_type ObjectType.filesys
      → (s.common_table (entry ObjectType.filesys i)).active_id ≢ 0
      → find_virt_mount_point s.filesys_table path i zero_record ≡ true
      → ((j : ℕ)
          → j < get_max_for_object_type ObjectType.filesys
          → j ≢ i
          → (s.common_table (entry ObjectType.filesys j)).active_id ≢ 0
          → find_virt_mount_point s.filesys_table path j zero_record ≡ false)
      → let (code, out, _) = translate_path p impl garbage true (some path) s in
        let (code', out') = local_path p impl garbage path (s.filesys_table i) in
        (code ≡ code') × (out ≡ out')
  unfolding find_virt_mount_point
  translate_path-only path name i s g c h used hit others =
      let t = ObjectType.filesys in
      let s1 = lock_global p t s in
      let same : (j : ℕ)
          → (s1.common_table (entry t j)).active_id ≡ (s.common_table (entry t j)).active_id =
        λ j.
          ap (λ (c : ℕ → CommonRecord). (c (entry t j)).active_id) (lock_global-Same p t s).table in
      let found : search t (search_path path s) s1 ≡ some i =
        search-only t (search_path path s) s1 i h (ground (arith, hit, used, same i)) (λ j lt ne.
          elim (ℕ_discrete (s.common_table (entry t j)).active_id 0) [
            | yes free ↦ ground (arith, free, same j)
            | no taken ↦ ground (arith, others j lt ne taken)
          ]) in
      let whole =
        translate_path-guards path name s g
        ∙ ap (translate_found p impl garbage path)
            (get_by_search-found p t (search_path path s) s i found) in
      let (code, out) = translate_found-ok p impl garbage path i s c h used in
      (
        ap (λ (r : ℤ × Option Text × Os K). r.0) whole ∙ code,
        ap (λ (r : ℤ × Option Text × Os K). r.1) whole ∙ out,
      )

  mount_volume-frame :
      (mountpoint : Text) (i : ℕ) (s : Os K)
      → let s' = (mount_volume p impl garbage mountpoint i s).1 in
        (s'.common_table ≡ s.common_table)
        × ((j : ℕ) → j ≢ i → s'.filesys_table j ≡ s.filesys_table j)
  unfolding mount_volume
  mount_volume-frame mountpoint i s = (ground arith, λ j ne. ground (arith, ne))

-- A match reads the record of its own volume only.
match-frame :
    (a b : ℕ → FilesysRecord) (path : Text) (j : ℕ) (r : CommonRecord)
    → a j ≡ b j
    → find_virt_mount_point a path j r ≡ find_virt_mount_point b path j r
unfolding find_virt_mount_point
match-frame a b path j r e = ap (λ (v : FilesysRecord). find_virt_mount_point (λ k. v) path j r) e

seen :
    (fixed : Bool) (r : FilesysRecord)
    → r.flags ≡ flags_of fixed mounted
    → (bit_and r.flags is_mounted_virtual ≢ 0)
seen false r e = λ z. ground (arith, ap (λ f. bit_and f is_mounted_virtual) e, z)
seen true r e = λ z. ground (arith, ap (λ f. bit_and f is_mounted_virtual) e, z)

module _ {K : Type 0} (impl : FileSysImpl K) (p : Port K) (garbage : ℕ)
    (keeps : KeepsFlags impl) where
  -- Once a volume in use that was ready is mounted, in a consistent table and with a layer below
  -- that leaves the flags alone, OS_TranslatePath turns a path that is its mount point and a rest
  -- into the system's mount point and that rest, if the mount point starts with '/', the rest is
  -- empty or starts with '/', the path passes the checks of its length and of its file name, the
  -- result fits OS_MAX_LOCAL_PATH_LEN and no other volume in use matches the path.
  pub mount_volume-translate_path :
      (fixed : Bool) (mountpoint rest name : Text) (i : ℕ) (s : Os K)
      → IsConsistent s
      → i < get_max_for_object_type ObjectType.filesys
      → (s.common_table (entry ObjectType.filesys i)).active_id ≢ 0
      → (s.filesys_table i).flags ≡ flags_of fixed ready
      → (mount_volume p impl garbage mountpoint i s).0 ≡ os_success
      → ((j : ℕ)
          → j < get_max_for_object_type ObjectType.filesys
          → j ≢ i
          → (s.common_table (entry ObjectType.filesys j)).active_id ≢ 0
          → find_virt_mount_point s.filesys_table (mountpoint ++ rest) j zero_record ≡ false)
      → char_at 0 mountpoint ≡ slash
      → (char_at 0 rest ≡ slash) ⊎ (char_at 0 rest ≡ 0)
      → length (mountpoint ++ rest) < max_path_len
      → after_last_slash (mountpoint ++ rest) ≡ some name
      → length name < max_file_name
      → let s' = (mount_volume p impl garbage mountpoint i s).1 in
        let r = s'.filesys_table i in
        length (r.system_mountpt ++ rest) < max_local_path_len
        → let (code, out, _) = translate_path p impl garbage true (some (mountpoint ++ rest)) s' in
          (code ≡ os_success) × (out ≡ some (r.system_mountpt ++ rest))
  mount_volume-translate_path fixed mountpoint rest name i s c h used at done others root next short
        last small room =
      let t = ObjectType.filesys in
      let path = mountpoint ++ rest in
      let s' = (mount_volume p impl garbage mountpoint i s).1 in
      let (table, frame) = mount_volume-frame impl p garbage mountpoint i s in
      let same : (e : ℕ) → (s'.common_table e).active_id ≡ (s.common_table e).active_id =
        λ e. ap (λ (c : ℕ → CommonRecord). (c e).active_id) table in
      let local =
        mount_volume-local_path impl p garbage keeps fixed mountpoint rest i s at done room in
      let hit : find_virt_mount_point s'.filesys_table path i zero_record ≡ true =
        elim (mount_volume-Stage impl p garbage keeps fixed ready mountpoint i s at) [
          | inl (ok', was, flags, virtual) ↦
              matches-mountpoint s'.filesys_table mountpoint rest i zero_record
                (seen fixed (s'.filesys_table i) flags) virtual root next
          | inr (bad, flags) ↦ absurd (bad done)
        ] in
      let (code, out) =
        translate_path-only impl p garbage path name i s'
          (record {
            short = short;
            last = last;
            small = small;
            root = (first-slash mountpoint rest root).0;
          })
          (record {
            slots = λ t j lt. subst (λ id. SlotOk t j id) (sym (same (entry t j))) (c.slots t j lt);
          })
          h (λ z. used (sym (same (entry t i)) ∙ z)) hit
          (λ j lt ne taken.
            match-frame s'.filesys_table s.filesys_table path j zero_record (frame j ne)
            ∙ others j lt ne (λ z. taken (same (entry t j) ∙ z))) in
      (
        code ∙ ap (λ (r : ℤ × Option Text). r.0) local,
        out ∙ ap (λ (r : ℤ × Option Text). r.1) local,
      )
