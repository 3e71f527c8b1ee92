-- ===== src/Lib.antt =====
-- A verification library for RadixOS, a 32-bit x86 kernel for several processors, written in C
-- (kernel/ of the repository). It models the parts of the kernel that keep state in data structures
-- of their own, and proves what they promise to the code that calls them.
--
-- The parts, and the files that model them:
--
--   Base, Base/Tests, Base/Lists, Bits, Bits/Fields, Types, Exec, Utility
--     What the parts share: tests and lists over the native numbers, the bits of a number, error_t
--     (kernel/libk/include/types.h), calls that panic or do not come back, and the two functions
--     of kernel/libk/utility.c on quotients.
--   Memory, Strings, Convert, each with its modules
--     memset and memcpy (kernel/libk/utility.c), the strings of kernel/libk/string.c, and the
--     conversions between numbers and strings of kernel/libk/utility.c, on memory as bytes by address.
--     A buffer does not run past the last address.
--   VmArea
--     kernel/vm_area.c: an area of a process's address space, with its flags.
--   AvlTree and AvlTree/*
--     The tree of areas of kernel/vm_contract.c, an AVL tree by start address with the greatest
--     end address below each node. A tree is the data type Tree, each node of which has its address;
--     a null pointer that the code follows is `none`. Shape, Rotate and Rebalance are about single
--     steps, Cells and Areas about the tree as an ordered list, Insert, Remove and Search about
--     avl_insert, avl_remove and interval_intersect, Rejoin and BadBranch about the one case of
--     avl_remove that rotates the wrong node.
--   VmContract and VmContract/*
--     The memory map of a process, the public functions of kernel/vm_contract.c. heap_alloc is an
--     argument: the address that it returns. The heap_free of a node is a result.
--   PhysMem and PhysMem/*
--     kernel/mem_manager_phys.c: the bitmap of physical frames, with its counter and its lock. Blocks
--     gives the invariant, Bitmap the words as bytes of memory, FirstFree the search, Alloc, Dealloc, Region and Init the operations.
--   Heap and Heap/*
--     kernel/heap_manager.c: the kernel heap, a chain of headers in memory. Chain relates the memory
--     to a list of segments, Merge and Take are the steps, Areas is what a user of the heap sees, Alloc
--     and Fit are about heap_alloc, Free, Defrag and Aligned about the other operations.
--   Sched and Sched/*
--     kernel/thread_sched.c: the ready queues of each processor, which run through the thread control
--     blocks (kernel/include/process/process.h). A scheduler is the words of its record, so that the
--     arrays by priority are next to each other as in memory; the theorems are about the 8 priorities
--     that there are, which the code does not test. Queue relates the links to lists, Ready, Schedule and
--     Timer are about the operations.
--   Ipc and Ipc/*
--     Messages, mailboxes and semaphores (kernel/ipc/ipc.c, kernel/ipc/mailbox.c,
--     kernel/ipc/cpu_messages.c, kernel/sync/semaphore.c), on the state of the scheduler. Mailboxes is
--     about the search for a slot and what then stands in it, Waiting relates the queue of a semaphore to a list, Semaphores is
--     about waiting and signalling.
--   Slots, Process and Process/Create
--     The tables of processes and threads of kernel/process/process.c, with the frames of
--     kernel/trap_frame.c. Slots is the search for a free slot, which the mailboxes have too.
--   Descriptors and Descriptors/Fields
--     The entries of the tables of segments and of interrupts: gdt_set_gate (kernel/gdt.c), the entry
--     of tss_init_entry (kernel/tss.c), idt_set_gate (kernel/idt.c), and what gdt_print_gate reads.
--   Clock and Clock/Day
--     update_system_time of kernel/clock/clock.c, on ktime_t of kernel/include/time.h.
--   Paging and Paging/*
--     The entries of page tables and directories (kernel/vmmngr_pte.c, kernel/vmmngr_pde.c), and the
--     addresses of the tables in the recursive map (kernel/mem_manager_virt_aux.c).
--   VirtMem and VirtMem/*
--     kernel/mem_manager_virt.c: the pages of the current address space, on a memory of words and the
--     physical memory manager. Walk is the processor's walk through the recursive map, Store gives the
--     invariant of an address space, Page, Table, Zero and Create are the steps, Map, Lookup, Free and
--     Alloc are about the operations.
--
-- How they interact: a timer interrupt calls update_system_time and the scheduler; a page fault asks
-- the memory map of the process for the area, and then takes a frame of the physical memory manager;
-- the memory map takes its nodes from the heap. A semaphore sends a message to a processor, whose
-- interrupt handler then calls the scheduler, to put a thread to sleep or to awaken it. The physical
-- memory manager gives the frames of pages and page tables.
--
-- Numbers are natural numbers, and each addition, subtraction or product that can leave the 32 bits of
-- the code is taken modulo 2^32, as the code has it. A pointer is an address, 0 the null pointer.
-- Memory is explicit where aliases matter: the headers of the heap and the thread control blocks stand
-- in a store that maps addresses to records. Headers at different addresses do not overlap in the
-- model, and the invariant of the chain keeps them a header apart.
--
-- Bounds: the invariant of the bitmap has at most 2^20 blocks, that is 4 GiB; the heap ends below 2^32.
-- A loop of the heap runs on fuel, as many rounds as the heap has bytes, or one more; since each header
-- takes 8 bytes and each round passes or removes a header, this is enough on a proper chain, and the
-- theorems show that the loops come back. A loop over a string or the digits of a number has fuel for one
-- round more than the string or the 32 bits have, which the theorems show to be enough. The other loops
-- are structural in the number of their rounds.
--
-- Not modelled: assembly, port and device access (kernel/pic.c, kernel/pit.c, kernel/lapic.c,
-- kernel/ioapic.c, kernel/rtc.c), the screen, the start of the processors, and code of others
-- (kernel/libk/memcmp.c, stdint.h, stddef.h, multiboot.h). A lock is a flag: taking a held lock does
-- not come back. Interleavings of several processors are not modelled, the operations of one structure
-- being one after the other as its lock has them, and no translation is kept that a table no longer
-- has.
pub mod Base
pub mod Bits
pub mod Heap
pub mod Types
pub mod Clock
pub mod Exec
pub mod Utility
pub mod Memory
pub mod Strings
pub mod Convert
pub mod Paging
pub mod PhysMem
pub mod Sched
pub mod Slots
pub mod Descriptors
pub mod Ipc
pub mod Process
pub mod VirtMem
pub mod VmArea
pub mod AvlTree
pub mod VmContract
