-- ===== src/Lib.antt =====
-- The secure side of TF-M: the partition manager, the calls between partitions, the audit log, the
-- secure storage from the asset manager to the flash file system, and the way in from non-secure code.
--
-- The program. The secure partition manager keeps a database of partitions (secure_fw/spm). A
-- service is called through a veneer; the core (secure_fw/core/tfm_secure_api.c) checks the
-- request, takes a lock that counts the calls in progress, blocks the caller, switches stacks and
-- runs the callee; the return handler undoes this. The services audit_logging and secure_storage
-- run as partitions and ask the core who called them and which memory a caller may name. A
-- non-secure client packs its arguments and takes a lock; an SVC on its side gives the thread's
-- application id, and a veneer enters the core.
--
-- The files.
--   Prelude: Boolean tests, lists and 32-bit words, passed on to all modules.
--   Machine: the globals of the core and the registers that it reads and writes (State), actions
--     that change them and may stop in the endless loop of the error handler or in an access
--     outside an array (Effects), and what holds when an action comes back (Partial).
--     Machine/Platform is what the build, the linker and the platform give: TFM_LVL, addresses, the
--     isolation driver of platform/include/tfm_spm_hal.h, and the answers of cmse_check_address_range
--     and of the instruction TT. They are parameters of every operation that uses them.
--   Spm: secure_fw/spm/spm_db.h and spm_api.h (Types), the accessors of spm_api.c (Db),
--     tfm_spm_db_init with the macros of spm_db_setup.h, tfm_spm_partition_init, and main of
--     secure_fw/core/tfm_core.c with jump_to_ns_code of tfm_unpriv_api.c (Init).
--   SecureApi: secure_fw/core/tfm_secure_api.c. Frame is prepare_partition_ctx, Lock is tfm_push_lock
--     and tfm_pop_lock, Sfn is tfm_core_sfn_request_function and the request and return handlers,
--     Handlers is the remaining SVC handlers. A function keeps its name without the prefix tfm_,
--     tfm_core_ or tfm_spm_partition_. Svc is the dispatcher of secure SVCs in tfm_handler.c and
--     tfm_core_partition_request of tfm_core.c, SvcLaws the two together. The view of the
--     machine that the accounting of calls reads is in View, without the stack pointers and the shares
--     of the partitions; CallStack is its abstract form, a list of partitions, innermost first.
--   AuditLog: secure_fw/services/audit_logging/log_core.c. Buffer and Item are the ring and the item
--     format, Log the state and the operations log_core_*, Retrieve log_core_retrieve, Recent its
--     loop that drops old items; Items is the abstract view, a list of items that the ring holds one
--     behind the other.
--   Sst: secure_fw/services/secure_storage. Policy is the policy check of sst_asset_management.c,
--     Assets the tables of assets/sst_asset_defs.c, Utils the checks of sst_utils.c.
--   Manager: the operations sst_am_* of sst_asset_management.c over the object system. World is the
--     state (the bytes of the callers' memory, the storage, the prepared flag) and Core the interface
--     of two questions to the core; Access is the entry, the copy of a vector and the checks of
--     sst_utils.c that ask the core; Operations is one function per operation, Serve the choice
--     between the seven on assets, Jwt the two functions for tokens, which check nothing, and the calls
--     of all veneers (serve_veneer). OnCore fills the interface with the handlers of
--     SecureApi. Permission, Memory and Bounds are about who may, what is written, and which range.
--   Client: interface/src and secure_fw/ns_callable. Api is tfm_sst_api.c and tfm_log_api.c, Route the
--     numbers and handlers of the SVCs with tfm_id_mngr_dummy.c and the veneers, NsLock is
--     tfm_ns_lock_rtx.c as steps of any number of threads. Packing and ThreadId are about the vectors and
--     the application id of a thread, RouteLaws about the way of a request through all of these.
--   Store: sst_object_system.c (Objects), sst_core.c and flash/sst_flash.c of the secure storage. A
--     function keeps its name without the prefix sst_, sst_meta_ or sst_core_. Layout has the sizes,
--     Effects the state (the statics of the C files, the bytes of the flash, and a count of the
--     requests to its driver) and actions that return, return an error or lose the power, with the
--     state left in each case. Flash is sst_flash.c over the CMSIS driver, a record of functions that
--     may answer any request by an error or a loss of power; its named laws say that reading gives the
--     contents, that a request touches nothing outside its range whatever the answer, and what a
--     successful one leaves. Meta is the structures and their bytes, Validate the checks on them,
--     Tables the search of the two tables, Scratch the writes to the scratch blocks, Commit the swap
--     of the metadata blocks; Create, Write, Delete, Read, Prepare and Wipe are the operations. The
--     part of an operation before the metadata header is written is a definition of its own
--     (stage_creation, stage_write, stage_deletion). Staged, Staging, StagedObjects, StagedFront,
--     StagedBlocks, Reserve, Created, StagedCreation, Touched and Committed carry what the flash holds
--     through the steps of a creation, CreateLaws and PrepareLaws put them together. Kept, Ready,
--     ReadyAgain and Reread carry their statements. Composed, StagedData, StagedWrite and WriteLaws do
--     the same for writing into an object of block 0, ObjectWrite and ReadBack put them together.
--     Quiet, TableWrites and DeleteLaws are about deletion, EntryReads and ReadLaws about reading,
--     Oversize about sizes beyond the buffer, and Recovery and ValidateLaws about the choice of the
--     metadata block and the check of an entry.
--   Tests: sample machines, logs and flash, and the theorems on them.
--
-- Choices. The array of the database has 8 entries (max_partitions), the two internal ones and six
-- of the partition list. The log has 1024 bytes. Loops are recursion on the number of rounds that
-- the source's counter bounds: the entries of the database, the bytes of a copy, and in
-- log_replace_item the items of the log, each round of which removes one. The two loops of
-- log_core_retrieve take fuel, since what they read in the ring decides when they end; the first needs
-- a round for each item at most.
-- Bytes of the log are a function from index to byte, and memory one from address to word. The API
-- type is TFM_API_DEPRIORITIZE, as the source fixes it, and the log's redirection to a UART is off.
-- The file system is that of platform/ext/target/mps2/an521: five blocks of 4096 bytes, a program
-- unit of one byte, ten objects, encryption off, validation of metadata and partial access on. Its
-- loops run over the tables, which have three and ten entries. A local structure and the buffer of
-- sst_flash_block_to_block_move hold only what a read has put there, so a read returns the bytes.
-- The plain-text buffer and g_sst_object have no bound here, and a size of an object is checked where
-- the source does it; the policy admits assets larger than the buffer (Store/Oversize).
-- Whether a secure partition called a service is a Boolean argument of the log and of the policy;
-- the asset manager has it from the core. The callers' memory in Manager and Client is bytes, kept
-- apart from the words of Machine, and what the core answers stays the same during an operation,
-- since the two handlers that answer change nothing. SST_RAM_FS is on, so that sst_am_prepare wipes and
-- prepares again. Only main_ns.c initialises the lock of the clients, so that two calls of
-- tfm_ns_lock_init never overlap. The token of a request is not read, since encryption is off.
--
-- Not modelled: secure code that runs between entry and return is the record Partitions, of which
-- the interrupt property asks that it leaves interrupts enabled. The mutex of the RTOS is in the steps of
-- NsLock by its documented behaviour, and jwt.c is the record JwtLibrary. The jumps and exception
-- returns in assembly, the debug and vector registers, the fault handlers, printing, the encryption of
-- the storage (off in the build modelled), the non-secure application, the boot loader, the drivers and
-- the copies of third-party code (MCUboot, TinyCrypt, Zephyr's JSON and JWT, CMSIS) have no definitions.
pub mod Prelude
pub mod Machine
pub mod Spm
pub mod SecureApi
pub mod AuditLog
pub mod Sst
pub mod Tests
pub mod Store
pub mod Manager
pub mod Client
