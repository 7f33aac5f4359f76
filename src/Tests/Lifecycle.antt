-- ===== src/Tests/Lifecycle.antt =====
-- A layer below that always agrees, for directories and files.
use hello_world_osal.Base.{ℕ, os_success}
use hello_world_osal.File.{FileImpl}
use hello_world_osal.Directory.{DirImpl}
use hello_world_osal.Tests.{agree}

abbrev pub directories : DirImpl ℕ
directories = record {
  create_impl = λ path access s. (os_success, s);
  open_impl = λ i path. agree i;
  close_impl = agree;
  read_impl = λ i entry s. (os_success, entry, s.kernel);
  rewind_impl = λ i s. (os_success, s);
  remove_impl = λ path s. (os_success, s);
}

abbrev pub streams : FileImpl ℕ
streams = record {
  open_impl = λ i local flags access. agree i;
  close_impl = agree;
  read_impl = λ i buffer timeout s. (os_success, buffer, s);
  write_impl = λ i buffer timeout s. (os_success, s);
  seek_impl = λ i offset whence s. (os_success, s);
  chmod_impl = λ local access s. (os_success, s);
  stat_impl = λ local before s. (os_success, before, s);
  remove_impl = λ local s. (os_success, s);
  rename_impl = λ old new s. (os_success, s);
}
