-- ===== src/FileSys/Find.antt =====
-- The translation of a path (osapi-filesys.c).
use hello_world_osal.Base.{
  ℕ, zero, suc, ◌+◌, ◌-◌, ◌<◌, ◌≡◌, ◌≢◌, ◌⊎◌, inl, inr, refl, sym, ap, ◌∙◌, arith, ℤ, true, Option,
  some, Text, [], ◌∷◌, ◌++◌, length, bit_and, slash, char_at, drop, starts_with, after_last_slash,
  os_success, os_err_name_not_found, Option-cases,
}
use hello_world_osal.Idmap.ObjectType
use hello_world_osal.Idmap.Id.{ok, fail, entry, get_max_for_object_type}
use hello_world_osal.Idmap.Tables.{FilesysRecord}
use hello_world_osal.Idmap.State.{Os, Port, CommonRecord}
use hello_world_osal.Idmap.Frame.{lock_global-Same}
use hello_world_osal.Idmap.Invariant.{IsConsistent}
use hello_world_osal.Idmap.Lock.{global, lock_global, unlock_global}
use hello_world_osal.Idmap.Lookup.{search, get_by_search}
use hello_world_osal.Idmap.Lookup.Search.{search-some}
use hello_world_osal.FileSys.{
  FileSysImpl, max_local_path_len, is_mounted_system, is_mounted_virtual, local_index, search_path,
  find_virt_mount_point,
}
use hello_world_osal.FileSys.Paths.{local_path, translate_found, translate_path}
use hello_world_osal.FileSys.Search.{
  starts_with-eq, length-drop, get_by_search-cases, held, held-volumes, local_index-found,
}

-- What a successful translation has found: a volume in use, mounted on both sides, whose virtual
-- mount point the path starts with.
pub record Translated {K : Type 0} (s : Os K) (path out : Text) : Type 0 where
  pub index : ℕ
  pub in_range : index < get_max_for_object_type ObjectType.filesys
  pub in_use : (s.common_table (entry ObjectType.filesys index)).active_id ≢ 0
  pub visible : bit_and (s.filesys_table index).flags is_mounted_virtual ≢ 0
  pub mounted : bit_and (s.filesys_table index).flags is_mounted_system ≢ 0
  pub rest : Text
  pub virtual : path ≡ (s.filesys_table index).virtual_mountpt ++ rest
  pub whole : (char_at 0 rest ≡ slash) ⊎ (char_at 0 rest ≡ 0)
  pub local : out ≡ (s.filesys_table index).system_mountpt ++ rest
  pub bounded : length out < max_local_path_len

pub char_at-drop : (n : ℕ) (t : Text) → char_at 0 (drop n t) ≡ char_at n t
unfolding char_at drop
char_at-drop zero t = refl
char_at-drop (suc n) [] = refl
char_at-drop (suc n) (c ∷ t) = char_at-drop n t

pub length-++ : (a b : Text) → length (a ++ b) ≡ length a + length b
length-++ [] b = ground arith
length-++ (x ∷ a) b = ground (arith, length-++ a b)

-- A path that a mount point matches.
match-starts :
    (table : ℕ → FilesysRecord) (path : Text) (i : ℕ) (r : CommonRecord)
    → find_virt_mount_point table path i r ≡ true
    → (bit_and (table i).flags is_mounted_virtual ≢ 0)
      × (starts_with (table i).virtual_mountpt path ≡ true)
      × ((char_at (length (table i).virtual_mountpt) path ≡ slash)
          ⊎ (char_at (length (table i).virtual_mountpt) path ≡ 0))
unfolding find_virt_mount_point
match-starts table path i r h = ground (arith, h)

module _ {K : Type 0} (p : Port K) (impl : FileSysImpl K) (garbage : ℕ) where
  local_path-some :
      (path : Text) (r : FilesysRecord)
      → (local_path p impl garbage path r).0 ≡ os_success
      → (bit_and r.flags is_mounted_system ≢ 0)
        × ((local_path p impl garbage path r).1
            ≡ some (r.system_mountpt ++ drop (length r.virtual_mountpt) path))
        × (length r.system_mountpt + (length path - length r.virtual_mountpt) < max_local_path_len)
  unfolding local_path
  local_path-some path r h = ground (arith, h)

  translate_path-eq :
      (path : Text) (s : Os K)
      → (translate_path p impl garbage true (some path) s).0 ≡ os_success
      → translate_path p impl garbage true (some path) s
        ≡ translate_found p impl garbage path
            (get_by_search p global ObjectType.filesys (search_path path s) s)
  unfolding translate_path
  translate_path-eq path s h = elim (Option-cases (after_last_slash path)) [
    | inl none_left ↦ ground (arith, h, none_left)
    | inr (name, last) ↦ ground (arith, h, last)
  ]

  translate_found-fail :
      (path : Text) (s : Os K)
      → (translate_found p impl garbage path (fail os_err_name_not_found, s)).0 ≢ os_success
  unfolding translate_found
  translate_found-fail path s = λ e. ground (arith, e)

  pub translate_found-ok :
      (path : Text) (i : ℕ) (s : Os K)
      → IsConsistent s
      → i < get_max_for_object_type ObjectType.filesys
      → (s.common_table (entry ObjectType.filesys i)).active_id ≢ 0
      → let (code, out, _) = translate_found p impl garbage path (ok i, held p garbage i s) in
        let (code', out') = local_path p impl garbage path (s.filesys_table i) in
        (code ≡ code') × (out ≡ out')
  unfolding translate_found
  translate_found-ok path i s c h used =
      let index = local_index-found p garbage i s c h used in
      let table = held-volumes p garbage i s in
      let same : (held p garbage i s).filesys_table (local_index garbage i (held p garbage i s))
          ≡ s.filesys_table i =
        ap (held p garbage i s).filesys_table index ∙ ap (λ (v : ℕ → FilesysRecord). v i) table in
      (
        ap (λ (r : FilesysRecord). (local_path p impl garbage path r).0) same,
        ap (λ (r : FilesysRecord). (local_path p impl garbage path r).1) same,
      )

  -- The volume that is found.
  pub found-volume :
      (path : Text) (i : ℕ) (s : Os K)
      → search ObjectType.filesys (search_path path s) (lock_global p ObjectType.filesys s) ≡ some i
      → (i < get_max_for_object_type ObjectType.filesys)
        × ((s.common_table (entry ObjectType.filesys i)).active_id ≢ 0)
        × (find_virt_mount_point s.filesys_table path i
              ((lock_global p ObjectType.filesys s).common_table (entry ObjectType.filesys i))
            ≡ true)
  found-volume path i s found =
      let s1 = lock_global p ObjectType.filesys s in
      let e = entry ObjectType.filesys i in
      let (lt, hit) = search-some ObjectType.filesys (search_path path s) s1 i found in
      let same : (s1.common_table e).active_id ≡ (s.common_table e).active_id =
        ap (λ (c : ℕ → CommonRecord). (c e).active_id)
          (lock_global-Same p ObjectType.filesys s).table in
      (lt, ground (arith, hit, same), ground (arith, hit))

  -- In a consistent table, a path that OS_TranslatePath translates starts with the virtual mount
  -- point of a volume in use that is mounted on both sides; the rest of it is empty or starts with
  -- '/', and the result is the system's mount point followed by that rest, shorter than
  -- OS_MAX_LOCAL_PATH_LEN.
  pub translate_path-Translated :
      (path : Text) (s : Os K)
      → IsConsistent s
      → (translate_path p impl garbage true (some path) s).0 ≡ os_success
      → (out : Text) × ((translate_path p impl garbage true (some path) s).1 ≡ some out)
        × Translated s path out
  translate_path-Translated path s c done =
      let guarded = translate_path-eq path s done in
      elim (get_by_search-cases p ObjectType.filesys (search_path path s) s) [
        | inr missing ↦
            let whole = guarded ∙ ap (translate_found p impl garbage path) missing in
            absurd (
              translate_found-fail path
                (unlock_global p ObjectType.filesys (lock_global p ObjectType.filesys s))
                (sym (ap (λ (r : ℤ × Option Text × Os K). r.0) whole) ∙ done))
        | inl (i, found, e) ↦
            let whole = guarded ∙ ap (translate_found p impl garbage path) e in
            let (lt, used, hit) = found-volume path i s found in
            let (code, out) = translate_found-ok path i s c lt used in
            let r = s.filesys_table i in
            let (mounted, local, room) =
              local_path-some path r
                (sym code ∙ sym (ap (λ (r : ℤ × Option Text × Os K). r.0) whole) ∙ done) in
            let (visible, starts, next) =
              match-starts s.filesys_table path i
                ((lock_global p ObjectType.filesys s).common_table (entry ObjectType.filesys i))
                hit in
            let rest = drop (length r.virtual_mountpt) path in
            let first = char_at-drop (length r.virtual_mountpt) path in
            (
              r.system_mountpt ++ rest,
              ap (λ (r : ℤ × Option Text × Os K). r.1) whole ∙ out ∙ local,
              record {
                index = i;
                in_range = lt;
                in_use = used;
                visible = visible;
                mounted = mounted;
                rest = rest;
                virtual = starts_with-eq r.virtual_mountpt path starts;
                whole = ground (arith, next, first);
                local = refl;
                bounded = omega (
                  arith,
                  room,
                  length-++ r.system_mountpt rest,
                  length-drop (length r.virtual_mountpt) path,
                );
              },
            )
      ]
