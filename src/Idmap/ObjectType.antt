-- ===== src/Idmap/ObjectType.antt =====
-- OS_OBJECT_TYPE_* of osal/src/os/inc/osapi-os-core.h.
use hello_world_osal.Base.{ℕ}

abbrev pub undefined : ℕ
undefined = 0

abbrev pub task : ℕ
task = 1

abbrev pub queue : ℕ
queue = 2

abbrev pub countsem : ℕ
countsem = 3

abbrev pub binsem : ℕ
binsem = 4

abbrev pub mutex : ℕ
mutex = 5

abbrev pub stream : ℕ
stream = 6

abbrev pub dir : ℕ
dir = 7

abbrev pub timebase : ℕ
timebase = 8

abbrev pub timecb : ℕ
timecb = 9

abbrev pub modules : ℕ
modules = 10

abbrev pub filesys : ℕ
filesys = 11

abbrev pub console : ℕ
console = 12

abbrev pub user : ℕ
user = 16
