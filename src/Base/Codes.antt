-- ===== src/Base/Codes.antt =====
-- `int32` return codes: an integer, `OS_SUCCESS` being 0 (osal/src/os/inc/osapi.h).
use Prim.Native.Nat.{ℕ, zero, suc}
use mathlib.Core.Path.{◌≡◌, refl}
use mathlib.Core.Bool.{Bool, true, false}
use hello_world_osal.Base.Tests.{◌==◌}

-- `negsuc n` is -(n + 1).
pub data ℤ : Type 0 where
  pos : ℕ → ℤ
  negsuc : ℕ → ℤ

-- `code == OS_SUCCESS`
abbrev pub is_success : ℤ → Bool
is_success (pos zero) = true
is_success (pos (suc n)) = false
is_success (negsuc n) = false

abbrev pub os_success : ℤ
os_success = pos 0

pub eq_success : (c : ℤ) → is_success c ≡ true → c ≡ os_success
eq_success (pos zero) h = refl
eq_success (pos (suc n)) h = cc
eq_success (negsuc n) h = cc

-- Whether a code is the given one.
abbrev pub is_code : ℤ → ℤ → Bool
is_code (pos m) (pos n) = m == n
is_code (negsuc m) (negsuc n) = m == n
is_code (pos m) (negsuc n) = false
is_code (negsuc m) (pos n) = false

abbrev pub os_error : ℤ
os_error = negsuc 0

abbrev pub os_invalid_pointer : ℤ
os_invalid_pointer = negsuc 1

abbrev pub os_queue_invalid_size : ℤ
os_queue_invalid_size = negsuc 10

abbrev pub os_err_name_too_long : ℤ
os_err_name_too_long = negsuc 12

abbrev pub os_err_no_free_ids : ℤ
os_err_no_free_ids = negsuc 13

abbrev pub os_err_name_taken : ℤ
os_err_name_taken = negsuc 14

abbrev pub os_err_invalid_id : ℤ
os_err_invalid_id = negsuc 15

abbrev pub os_err_name_not_found : ℤ
os_err_name_not_found = negsuc 16

abbrev pub os_err_not_implemented : ℤ
os_err_not_implemented = negsuc 27

abbrev pub os_timer_err_invalid_args : ℤ
os_timer_err_invalid_args = negsuc 28

abbrev pub os_err_object_in_use : ℤ
os_err_object_in_use = negsuc 32

abbrev pub os_err_incorrect_obj_state : ℤ
os_err_incorrect_obj_state = negsuc 34

abbrev pub os_err_incorrect_obj_type : ℤ
os_err_incorrect_obj_type = negsuc 35

abbrev pub os_queue_full : ℤ
os_queue_full = negsuc 8

abbrev pub os_fs_err_path_too_long : ℤ
os_fs_err_path_too_long = negsuc 102

abbrev pub os_fs_err_name_too_long : ℤ
os_fs_err_name_too_long = negsuc 103

abbrev pub os_fs_err_device_not_free : ℤ
os_fs_err_device_not_free = negsuc 106

abbrev pub os_fs_err_path_invalid : ℤ
os_fs_err_path_invalid = negsuc 107

abbrev pub os_err_invalid_priority : ℤ
os_err_invalid_priority = negsuc 18
