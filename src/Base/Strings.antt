-- ===== src/Base/Strings.antt =====
-- What the code does with C strings beside comparing them.
use Prim.Native.Nat.{ℕ, zero, suc}
use mathlib.Core.Bool.{Bool, true, false, ◌&&◌}
use mathlib.Core.Option.{Option, none, some}
use mathlib.Core.List.{[], ◌∷◌}
use hello_world_osal.Base.Tests.{◌==◌, if◌then◌else◌}
use hello_world_osal.Base.Arrays.{Text}

-- `'/'`
abbrev pub slash : ℕ
slash = 47

-- `t[i]`, which is NUL at the end.
unfoldable pub char_at : ℕ → Text → ℕ
char_at i [] = 0
char_at zero (c ∷ t) = c
char_at (suc i) (c ∷ t) = char_at i t

-- `t + i`
unfoldable pub drop : ℕ → Text → Text
drop zero t = t
drop (suc i) [] = []
drop (suc i) (c ∷ t) = drop i t

-- `strncmp(t, s, strlen(s)) == 0`
unfoldable pub starts_with : Text → Text → Bool
starts_with [] t = true
starts_with (b ∷ s) [] = false
starts_with (b ∷ s) (c ∷ t) = (b == c) && starts_with s t

-- What follows the last '/', if there is one: `strrchr(t, '/') + 1`.
unfoldable pub after_last_slash : Text → Option Text
after_last_slash [] = none
after_last_slash (c ∷ t) = elim (after_last_slash t) [
  | some rest ↦ some rest
  | none ↦ if c == slash then some t else none
]
