-- ===== src/Lib.antt =====
-- The core of the RISC-V server SoC test suite, in its validation layer `val/`: how a test run selects,
-- starts, awaits and judges its tests, and the code by which the tests reach PCIe functions and IOMMUs,
-- set up page tables and SMMUs, start other harts and look things up in the tables of the platform.
--
-- An application (uefi_app, linux_app, baremetal_app) sets the globals and calls `val_*_execute_tests`
-- for each module. An executor calls the test entries of its module (test_pool); an entry calls
-- `val_initialize_test`, `val_run_test_payload`, `val_check_for_error` and `val_report_status` in turn,
-- and the payload stores its result with `val_set_status` in the slot of its hart. Payloads and
-- executors read PCIe configuration space and the IOMMU table through val/src/acs_pcie.c and
-- val/src/acs_iommu.c.
--
-- The parts and their files:
-- Prelude: names and lemmas that all modules share. Bits: `&`, `|`, shifts and masks of C on numbers.
-- Session: the globals of a run, the shared memory of the harts (one slot to a hart, as a function of
--   the index) and the console (val_print, val_print_test_start, val_print_test_end).
-- Status: the result codes of val/include/bsa_acs_common.h, and val/src/acs_status.c.
-- Infra: val/src/acs_test_infra.c, from val_check_skip_module to val_check_for_error. What the other
--   harts do is a function on sessions, applied before each read of a status.
-- Execute: the executors in acs_hart.c, acs_memory.c, acs_gic.c, acs_smmu.c, acs_timer.c,
--   acs_wakeup.c, acs_peripherals.c, acs_wd.c, acs_pcie.c, acs_qos.c, acs_mng.c and acs_iommu.c of
--   val/src. The entries are an argument, a function from a test's name and a session to a status and
--   a session; Target holds the views, the build and the answers of the information tables.
-- Pcie: val/src/acs_pcie.c. Device states are a type S, and the platform's loads, stores and tables
--   are the record Pal. Config has the accessors, Ecam, Isolation and Memory their properties;
--   Capability the walk along capability lists; Device the registers of one function; Command its
--   switches; Next the order of functions; Hierarchy root ports and downstream
--   functions; Table the creation of the table of functions; Regions the ECAM regions of the
--   information table; Bars the search for a memory BAR; Bridge links and the scan of a bridge;
--   Bitfields the checks that write to a bit-field and restore it.
-- Iommu: val/src/acs_iommu.c, the getters and the search for the IOMMU of a function (Governing);
--   Layout the table in memory; Registers and Access the loads and stores of IOMMU registers.
-- Hart: val/src/acs_hart_infra.c, the table of harts and the start of a payload on another hart. The
--   call of the firmware is an argument, a function on its arguments and sessions.
-- MemoryMap: val/src/acs_memory.c, the searches in the table of memory regions.
-- PageTable: val/src/acs_pgt.c. Memory is a type S, and loads, stores and the allocation of pages are
--   the record PagePal. Granule has the sizes, Fill the loop that fills a table, Create the entry
--   point, Walk the look-up of attributes and the release of all pages, Lookup its relation to the
--   walk of the architecture.
-- Iovirt: val/src/acs_iovirt.c, the table of IO virtualisation nodes, with the getters for SMMUs and
--   root complexes (Nodes) and ITS groups (Its), and the way from a requester to its device (Device, on
--   Ranges). The block at an offset of the table is an argument, a function.
-- Timer: val/src/acs_timer.c, the getter and the place of a platform timer in the table (Places). The
--   arrays of a block are functions.
-- Smmu: val/sys_arch_src/smmu_v3, the driver of the SMMUs. Memory and registers are a type S with the
--   record SmmuPal, in which reading a register is a step too, as its answers may change. Positions has
--   the positions of a queue and their wrap bit; Command and Issue the commands and how they are
--   written and awaited; Invalidate the commands of an invalidation in the queue; Event and Drain the
--   event queue; Sync the writes that a device acknowledges; Align and Config the sizes and the
--   bit-fields of the tables; Stream and Walk the stream tables of one and two levels; Context the
--   context descriptors; Master the list of masters, with val_smmu_map and val_smmu_unmap, Unmap
--   what the latter leaves of a table and Masters the streams in the list over any calls; Init, Reset
--   and Buffers the start of a device and its queues.
-- GicIts: val/sys_arch_src/gic/its, the driver of the interrupt translation services. Redistributor has
--   its tables and the search for the frame of a hart, Tables the set-up of the services, Command the
--   commands and the wait for them, Lpi the calls that map an interrupt and take it back, Position
--   what they leave, and MaxLpi the highest interrupt. As in Smmu a register read is a step.
--
-- Conventions. A uint32_t is a natural number with its wrap-around written out. An uninitialised
-- variable is the argument `junk`, and a variable passed by address is returned, with the value that
-- it held before as the argument `old`. A table with a count is a list, and a NULL table is `none`.
-- Reads beyond the end of a table, which are undefined in C, read 0 in the tables of PCIe, IOMMUs and
-- IO virtualisation, and are `none` in MemoryMap, PageTable and Timer. Hart's table is addressed as a
-- function. In Smmu an array of descriptors is its address and a function, a master is named by its
-- place in the list, and its SMMU is `none` for NULL, else the number of the array that a call of
-- val_smmu_init made and the index in it. The mappings of an entry of the IOMMU table, whose flexible
-- array lies over the entries after it, are a list, which Layout reads from the bytes of the memory.
--
-- Bounds. The wait for the harts runs as many rounds as its timeout lets through. A walk along a
-- capability list runs on fuel and returns `none` when the fuel is used up; the length of the list is
-- enough, while a list that runs in a circle has no fuel that is enough, as the code does not return.
-- The loop that fills a page table runs on fuel, of which every round and every call for a table
-- below takes one: a table of the last level with n pages uses n + 1 of it. A look-up in page tables
-- uses one for each level. The calls of the firmware are as many as the timeout lets through.
-- The waits of the SMMU driver run as many rounds as their timeout, an argument. The loops over the
-- event queue run on fuel, of which every event takes one. The wait of an interrupt translation
-- service runs as many rounds as its timeout, an argument, and the search for a frame on fuel.
--
-- Not modelled: what the PCIe and IOMMU code prints; the exception handlers; the memory-mapped wrappers
-- and cache maintenance, which only call the platform; the MMU, whose registers the code sets; the
-- information tables of the other modules; what the SMMU driver prints and its loop that dumps all
-- event queues; the other drivers of interrupt controllers; the tests, the platform layers and
-- the applications.
pub mod Prelude
pub mod Bits
pub mod Session
pub mod Status
pub mod Infra
pub mod Execute
pub mod Pcie
pub mod Iommu
pub mod Hart
pub mod MemoryMap
pub mod PageTable
pub mod Iovirt
pub mod Timer
pub mod Smmu
pub mod GicIts
