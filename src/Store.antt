-- ===== src/Store.antt =====
-- The flash file system of secure storage: sst_core.c over flash/sst_flash.c.
pub mod Layout
pub mod Effects
pub mod Flash
pub mod Meta
pub mod Validate
pub mod Tables
pub mod Scratch
pub mod Commit
pub mod Create
pub mod Write
pub mod Delete
pub mod Read
pub mod Prepare
pub mod Wipe
pub mod Objects
pub mod Quiet
pub mod TableWrites
pub mod DeleteLaws
pub mod Ends
pub mod Staged
pub mod Entries
pub mod Staging
pub mod StagedObjects
pub mod StagedFront
pub mod StagedBlocks
pub mod StagedData
pub mod Bytes
pub mod Reserve
pub mod Created
pub mod StagedCreation
pub mod StagedWrite
pub mod Touched
pub mod Kept
pub mod Committed
pub mod Ready
pub mod ReadyAgain
pub mod CreateLaws
pub mod Recovery
pub mod Reread
pub mod PrepareLaws
pub mod EntryReads
pub mod ReadLaws
pub mod Composed
pub mod WriteLaws
pub mod ObjectWrite
pub mod ReadBack
pub mod Oversize
pub mod ValidateLaws
