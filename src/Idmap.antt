-- ===== src/Idmap.antt =====
-- The object table that every OSAL service allocates its IDs from: osal/src/os/shared/src/osapi-idmap.c
-- and os-shared-idmap.h.
pub mod ObjectType
pub mod Id
pub mod Tables
pub mod State
pub mod Lock
pub mod Lookup
pub mod Alloc
pub mod Each
pub mod Invariant
pub mod Frame
