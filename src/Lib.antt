-- ===== src/Lib.antt =====
-- The shared layer of OSAL (osal/src/os/shared): the table of objects, through which tasks share
-- semaphores, mutexes, queues, tasks, time bases, timers, files, sockets, directories, modules and file systems,
-- and the services on it.
--
-- The parts and their files:
--   Base      integers of C, return codes (osal/src/os/inc/osapi.h), arrays, texts, bits of words
--   Idmap     osal/src/os/shared/src/osapi-idmap.c and osal/src/os/shared/inc/os-shared-idmap.h.
--             Idmap/Id: the packing of IDs, the part of the common table that a type has;
--             Idmap/State: the global variables and the interface to the layer below;
--             Idmap/Lock: OS_Lock_Global, OS_Unlock_Global, OS_ObjectIdInitiateLock,
--             OS_ObjectIdConvertLock; Idmap/Lookup: OS_ObjectIdSearch, OS_ObjectIdGetBySearch,
--             OS_ObjectIdGetByName, OS_ObjectIdFindByName, OS_ObjectIdGetById,
--             OS_ObjectIdRefcountDecr, OS_GetResourceName, and OS_TaskGetId of osapi-task.c;
--             Idmap/Alloc: OS_ObjectIdFindNext, OS_ObjectIdAllocateNew, OS_ObjectIdFinalizeNew,
--             OS_ObjectIdFinalizeDelete, and OS_NotifyEvent of osapi-common.c; Idmap/Each:
--             OS_ForEachObject and OS_ForEachObjectOfType. The other files of the folder are proofs.
--   Service   the sequences of calls that the services share, and in Service/CountSem,
--             Service/BinSem, Service/Mutex and Service/Queue the calls of osapi-countsem.c,
--             osapi-binsem.c, osapi-mutex.c and osapi-queue.c
--   Timer     Timer/TimeBase: the calls of osapi-timebase.c; Timer/Timers and Timer/Timers/Calls: those of
--             osapi-time.c;
--             Timer/Tick: OS_TimeBase_CallbackThread of osapi-timebase.c. Timer/Timers/Links,
--             Timer/Timers/Ring and Timer/Rings see the links of the timers of a time base as a list;
--             Timer/Objects and Timer/Deleting follow that list through the whole of OS_TimerDelete
--   FileSys   the calls of osapi-filesys.c (FileSys/Calls) on the records of the volumes
--   Directory the calls of osapi-dir.c, on paths that FileSys translates
--   File      the calls of osapi-file.c: File/Paths those on paths, File/Copy OS_cp and OS_mv,
--             File/Closing OS_CloseFileByName and OS_CloseAllFiles
--   Socket    the calls of osapi-sockets.c, on the streams of File; Socket/Connections: OS_SocketAccept
--             and OS_SocketConnect
--   Module    the calls of osapi-module.c; Module/Symbols: the symbols of the modules
--   Select    osapi-select.c: the sets of streams, and the calls that wait on streams
--   Task      the calls of osapi-task.c
--   Common    OS_RegisterEventHandler and OS_ApplicationShutdown of osapi-common.c, and in
--             Common/Lifecycle OS_API_Init, OS_CleanUpObject, OS_DeleteAllObjects and OS_IdleLoop
--   Console   OS_ConsoleWrite of osapi-printf.c, with the ring buffer of the console; Console/Printf:
--             OS_ConsoleAPI_Init, OS_printf and its switch
--   Errors    OS_GetErrorName of osapi-errors.c
--   Platform  the calls of osapi-clock.c, osapi-heap.c, osapi-network.c and osapi-shell.c
--   Posix     the arithmetic of the layer for POSIX: the priorities of osal/src/os/posix/src/os-impl-tasks.c
--             and the deadlines of os-impl-common.c beside it. Its other calls are parameters.
--   NetSupport  src/NetSupport.c: the slots of TCPConnMgmt and Server_Fn, and the replies. The manager
--             and the server tasks take turns (NetSupport/Phases): a round of the manager is two
--             turns, up to OS_SocketAccept and from there on; a server task has one where it begins
--             and one where it ends. `World` counts the server tasks of each slot by their
--             LocalConnID. A server task that OS_TaskCreate has created begins before the next round
--             of the manager, as its higher priority makes it do, and takes its slot from
--             `FreeconnId` as it then stands.
--   Tests     runs on concrete states
--
-- A function of C is a function of its arguments and of the state `Os`, with the return code and the
-- new state as results; a pointer that may be NULL is an Option or a Boolean; what goes out through
-- a pointer is a result. `Os` holds the common table as a function of the index, which is always
-- below 292 where the code reads it for an object of a type that has a table. The names that
-- `name_entry` points to are values: a service writes a name buffer while it creates the object, and
-- OS_rename, OS_SocketBind and OS_SocketAccept write the buffer and the entry of the table together.
--
-- The layer below (posix, rtems or vxworks) is a parameter: `Port` for what the object table calls,
-- and one record for each service. Other tasks run where this task sleeps with the table unlocked
-- (`task_delay`) and inside the blocking calls of the layer below; both may return any state.
-- The event handler is a function of the event and the ID; what it does by itself is not modelled.
--
-- The loops on fuel: `convert_loop` gets 5, since the code gives up at the fifth attempt; `expire` gets
-- 3, since the loop of a tick never makes a fourth round; `tick_ring` gets 10, the size of the table
-- of the timers, of which a ring has each once. `thread_loop` runs for as many turns as it is told,
-- since the thread of a time base does not end by itself, and so does `idle_loop`. `delete_tries` gets 5,
-- the number of passes that OS_DeleteAllObjects makes at most. The loops of OS_cp get as much fuel as
-- they are told, since a layer below that writes nothing would keep them for ever.
--
-- A variable that C leaves unset where a call fails is the parameter `garbage`. The time base's own
-- lock is left out: a tick and a call of the timer API are one step each. A callback is noted with its
-- arguments; it may not call the timer API, which `in_callback` refuses.
--
-- Not modelled: the layers below, but for that arithmetic; the set-up of the server socket and the other files of the
-- application; the tests of OSAL. Debug messages are left out, and so is OS_DebugPrintf, which only
-- prints.
pub mod Base
pub mod Idmap
pub mod Service
pub mod Task
pub mod Timer
pub mod FileSys
pub mod Select
pub mod Directory
pub mod Errors
pub mod Platform
pub mod Posix
pub mod File
pub mod Module
pub mod Socket
pub mod Common
pub mod Console
pub mod NetSupport
pub mod Tests
