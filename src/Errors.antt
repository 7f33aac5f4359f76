-- ===== src/Errors.antt =====
-- The names of the error codes: osal/src/os/shared/src/osapi-errors.c.
use Prim.Native.String.{String}
use Prim.Native.Char.{code}
use hello_world_osal.Base.{
  ℕ, ◌-◌, ℤ, pos, negsuc, Bool, true, false, Option, none, some, List, [], ◌∷◌, ◌++◌, Text, take,
  if◌then◌else◌, is_code, os_success, os_error, os_invalid_pointer,
}

-- The characters of a literal.
abbrev pub codes : String → Text
codes String.[] = []
codes (String.◌∷◌ c s) = code c ∷ codes s

-- OS_ERROR_NAME_LENGTH
abbrev pub error_name_length : ℕ
error_name_length = 35

-- OS_GLOBAL_ERROR_NAME_TABLE, without its end marker.
unfoldable pub global_error_names : List (ℤ × Text)
global_error_names =
    (pos 0, codes "OS_SUCCESS")
    ∷ (negsuc 0, codes "OS_ERROR")
    ∷ (negsuc 1, codes "OS_INVALID_POINTER")
    ∷ (negsuc 2, codes "OS_ADDRESS_MISALIGNED")
    ∷ (negsuc 3, codes "OS_ERROR_TIMEOUT")
    ∷ (negsuc 4, codes "OS_INVALID_INT_NUM")
    ∷ (negsuc 5, codes "OS_SEM_FAILURE")
    ∷ (negsuc 6, codes "OS_SEM_TIMEOUT")
    ∷ (negsuc 7, codes "OS_QUEUE_EMPTY")
    ∷ (negsuc 8, codes "OS_QUEUE_FULL")
    ∷ (negsuc 9, codes "OS_QUEUE_TIMEOUT")
    ∷ (negsuc 10, codes "OS_QUEUE_INVALID_SIZE")
    ∷ (negsuc 11, codes "OS_QUEUE_ID_ERROR")
    ∷ (negsuc 12, codes "OS_ERR_NAME_TOO_LONG")
    ∷ (negsuc 13, codes "OS_ERR_NO_FREE_IDS")
    ∷ (negsuc 14, codes "OS_ERR_NAME_TAKEN")
    ∷ (negsuc 15, codes "OS_ERR_INVALID_ID")
    ∷ (negsuc 16, codes "OS_ERR_NAME_NOT_FOUND")
    ∷ (negsuc 17, codes "OS_ERR_SEM_NOT_FULL")
    ∷ (negsuc 18, codes "OS_ERR_INVALID_PRIORITY")
    ∷ (negsuc 32, codes "OS_ERR_OBJECT_IN_USE")
    ∷ (negsuc 33, codes "OS_ERR_BAD_ADDRESS")
    ∷ (negsuc 34, codes "OS_ERR_INCORRECT_OBJ_STATE")
    ∷ (negsuc 35, codes "OS_ERR_INCORRECT_OBJ_TYPE")
    ∷ (negsuc 102, codes "OS_FS_ERR_PATH_TOO_LONG")
    ∷ (negsuc 103, codes "OS_FS_ERR_NAME_TOO_LONG")
    ∷ (negsuc 105, codes "OS_FS_ERR_DRIVE_NOT_CREATED")
    ∷ (negsuc 106, codes "OS_FS_ERR_DEVICE_NOT_FREE")
    ∷ (negsuc 107, codes "OS_FS_ERR_PATH_INVALID")
    ∷ []

-- The loop through a table: the number and the name where it stops. The end marker has the number 0
-- and a NULL name.
unfoldable pub find_error : ℤ → List (ℤ × Text) → ℤ × Option Text
find_error error_num [] = (pos 0, none)
find_error error_num ((number, name) ∷ rest) =
    if is_code number error_num then (number, some name) else find_error error_num rest

-- `decimal` is what `%d` prints, and `impl_error_names` is OS_IMPL_ERROR_NAME_TABLE.
module _ (decimal : ℤ → Text) (impl_error_names : List (ℤ × Text)) where
  unfoldable pub unknown_name : ℤ → ℤ × Text
  unknown_name error_num = (
    os_error,
    take (error_name_length - 1) (codes "OS_UNKNOWN(" ++ decimal error_num ++ codes ")"),
  )

  unfoldable pub name_found : ℤ → ℤ × Option Text → ℤ × Text
  name_found error_num (number, none) = unknown_name error_num
  name_found error_num (number, some name) =
      if is_code number error_num
      then (os_success, take (error_name_length - 1) name)
      else unknown_name error_num

  -- A NULL pointer for the name is `false`.
  unfoldable pub get_error_name : ℤ → Bool → ℤ × Option Text
  get_error_name error_num false = (os_invalid_pointer, none)
  get_error_name error_num true =
      let found = find_error error_num global_error_names in
      let (code, name) =
        name_found error_num
          (if is_code found.0 error_num then found else find_error error_num impl_error_names) in
      (code, some name)
