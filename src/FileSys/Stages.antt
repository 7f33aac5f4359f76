-- ===== src/FileSys/Stages.antt =====
-- The stages of a volume, as its flags say them: OS_FileSys_Initialize, OS_FileSysAddFixedMap, OS_mount
-- and OS_unmount (osapi-filesys.c).
use hello_world_osal.Base.{
  ℕ, ◌+◌, ◌<◌, ◌≡◌, ◌≢◌, ◌⊎◌, inl, inr, refl, ap, ◌∙◌, arith, Bool, true, false, some, Text, [],
  ◌∷◌, ◌++◌, os_success, length, drop, bit_and,
}
use hello_world_osal.Idmap.Tables.{FilesysRecord}
use hello_world_osal.Idmap.State.{Os}
use hello_world_osal.FileSys.{
  Port, FileSysImpl, is_fixed, is_ready, is_mounted_system, is_mounted_virtual, clear_flags,
  max_local_path_len,
}
use hello_world_osal.FileSys.Calls.{mount_volume, unmount_volume}
use hello_world_osal.FileSys.Paths.{local_path}
use hello_world_osal.FileSys.Find.{length-++}

pub data Stage : Type 0 where
  stopped ready mounted : Stage

-- The flags of a volume of a fixed map or another.
abbrev pub flags_of : Bool → Stage → ℕ
flags_of false stopped = 0
flags_of true stopped = is_fixed
flags_of false ready = is_ready
flags_of true ready = is_fixed + is_ready
flags_of false mounted = is_ready + is_mounted_system + is_mounted_virtual
flags_of true mounted = is_fixed + is_ready + is_mounted_system + is_mounted_virtual

-- The layer below leaves the flags to this layer.
pub record KeepsFlags {K : Type 0} (impl : FileSysImpl K) : Type 0 where
  pub start : (i : ℕ) (s : Os K) → (impl.start_impl i s).1.flags ≡ (s.filesys_table i).flags
  pub stop : (i : ℕ) (s : Os K) → (impl.stop_impl i s).1.flags ≡ (s.filesys_table i).flags
  pub format : (i : ℕ) (s : Os K) → (impl.format_impl i s).1.flags ≡ (s.filesys_table i).flags
  pub mount : (i : ℕ) (s : Os K) → (impl.mount_impl i s).1.flags ≡ (s.filesys_table i).flags
  pub unmount : (i : ℕ) (s : Os K) → (impl.unmount_impl i s).1.flags ≡ (s.filesys_table i).flags

module _ {K : Type 0} (impl : FileSysImpl K) (p : Port K) (garbage : ℕ)
    (keeps : KeepsFlags impl) where
  -- If the layer below leaves the flags alone, a mount succeeds only on a volume that is ready,
  -- which is then mounted at the mount point given; else it fails and the volume is in the stage
  -- it was in, for volumes of a fixed map and others.
  pub mount_volume-Stage :
      (fixed : Bool) (stage : Stage) (mountpoint : Text) (i : ℕ) (s : Os K)
      → (s.filesys_table i).flags ≡ flags_of fixed stage
      → let (code, s') = mount_volume p impl garbage mountpoint i s in
        ((code ≡ os_success)
          × (stage ≡ ready)
          × ((s'.filesys_table i).flags ≡ flags_of fixed mounted)
          × ((s'.filesys_table i).virtual_mountpt ≡ mountpoint))
        ⊎ ((code ≢ os_success) × ((s'.filesys_table i).flags ≡ flags_of fixed stage))
  unfolding mount_volume clear_flags
  mount_volume-Stage false stopped mountpoint i s at = ground (arith, at, keeps.mount i s)
  mount_volume-Stage true stopped mountpoint i s at = ground (arith, at, keeps.mount i s)
  mount_volume-Stage false ready mountpoint i s at = ground (arith, at, keeps.mount i s)
  mount_volume-Stage true ready mountpoint i s at = ground (arith, at, keeps.mount i s)
  mount_volume-Stage false mounted mountpoint i s at = ground (arith, at, keeps.mount i s)
  mount_volume-Stage true mounted mountpoint i s at = ground (arith, at, keeps.mount i s)

  -- If the layer below leaves the flags alone, an unmount succeeds only on a volume that is
  -- mounted, which is then ready again; else it fails and the volume is in the stage it was in.
  pub unmount_volume-Stage :
      (fixed : Bool) (stage : Stage) (i : ℕ) (s : Os K)
      → (s.filesys_table i).flags ≡ flags_of fixed stage
      → let (code, s') = unmount_volume p impl garbage i s in
        ((code ≡ os_success)
          × (stage ≡ mounted)
          × ((s'.filesys_table i).flags ≡ flags_of fixed ready))
        ⊎ ((code ≢ os_success) × ((s'.filesys_table i).flags ≡ flags_of fixed stage))
  unfolding unmount_volume clear_flags
  unmount_volume-Stage false stopped i s at = ground (arith, at, keeps.unmount i s)
  unmount_volume-Stage true stopped i s at = ground (arith, at, keeps.unmount i s)
  unmount_volume-Stage false ready i s at = ground (arith, at, keeps.unmount i s)
  unmount_volume-Stage true ready i s at = ground (arith, at, keeps.unmount i s)
  unmount_volume-Stage false mounted i s at = ground (arith, at, keeps.unmount i s)
  unmount_volume-Stage true mounted i s at = ground (arith, at, keeps.unmount i s)

-- Behind a mount point, the rest of a path comes after the system's mount point.
pub drop-++ : (a b : Text) → drop (length a) (a ++ b) ≡ b
unfolding drop
drop-++ [] b = refl
drop-++ (x ∷ a) b = drop-++ a b

module _ {K : Type 0} (impl : FileSysImpl K) (p : Port K) (garbage : ℕ)
    (keeps : KeepsFlags impl) where
  behind-local_path :
      (mountpoint rest : Text) (r : FilesysRecord)
      → bit_and r.flags is_mounted_system ≢ 0
      → r.virtual_mountpt ≡ mountpoint
      → length (r.system_mountpt ++ rest) < max_local_path_len
      → local_path p impl garbage (mountpoint ++ rest) r
        ≡ (os_success, some (r.system_mountpt ++ rest))
  unfolding local_path
  behind-local_path mountpoint rest r mounted_on same room = ground (
    arith,
    mounted_on,
    ap length same,
    length-++ mountpoint rest,
    length-++ r.system_mountpt rest,
    ap (λ (v : Text). drop (length v) (mountpoint ++ rest)) same ∙ drop-++ mountpoint rest,
  )

  -- Once a volume that was ready is mounted, a path that is its mount point and a rest becomes the
  -- system's mount point and that rest, if this fits the buffer and the layer below leaves the
  -- flags alone.
  pub mount_volume-local_path :
      (fixed : Bool) (mountpoint rest : Text) (i : ℕ) (s : Os K)
      → (s.filesys_table i).flags ≡ flags_of fixed ready
      → (mount_volume p impl garbage mountpoint i s).0 ≡ os_success
      → length
          (((mount_volume p impl garbage mountpoint i s).1.filesys_table i).system_mountpt ++ rest)
        < max_local_path_len
      → let r = (mount_volume p impl garbage mountpoint i s).1.filesys_table i in
        local_path p impl garbage (mountpoint ++ rest) r
        ≡ (os_success, some (r.system_mountpt ++ rest))
  mount_volume-local_path fixed mountpoint rest i s at done room =
      let r = (mount_volume p impl garbage mountpoint i s).1.filesys_table i in
      elim (mount_volume-Stage impl p garbage keeps fixed ready mountpoint i s at) [
        | inl (ok', was, flags, virtual) ↦
            behind-local_path mountpoint rest r (on_system fixed r flags) virtual room
        | inr (bad, flags) ↦ absurd (bad done)
      ]
    where
      on_system :
          (b : Bool) (r : FilesysRecord)
          → r.flags ≡ flags_of b mounted
          → bit_and r.flags is_mounted_system ≢ 0
      on_system false r e = λ z. ground (arith, ap (λ f. bit_and f is_mounted_system) e, z)
      on_system true r e = λ z. ground (arith, ap (λ f. bit_and f is_mounted_system) e, z)
