-- ===== src/Lib.antt =====
-- Khazar OS is a 32-bit x86 kernel in C. This library models the parts of it that keep state and
-- decide: the allocators, the page tables, the queues between interrupts and readers, the address
-- cache of the network, the scheduler and the checks of system calls. A machine word is a natural
-- number, and a sum or difference of words is written with its wrap-around modulo 2 ^ 32.
--
-- The parts, and the files that model them:
-- - kernel/mm/allocator/pmm.c, the bitmap of physical blocks: Pmm has `bitmap_find_first_free`,
--   `init` (pmm_init), `init_region`, `deinit_region`, `alloc_block`, `free_block` and the counts on
--   a record of the three statics. Pmm/View reads a state as the set of blocks in use, and
--   Pmm/Alloc, Pmm/Region, Pmm/Count and Pmm/Init prove the operations against that set.
-- - kernel/mm/allocator/kheap.c, the kernel heap: Kheap has `kmalloc` and `kfree` on a memory of
--   headers. Kheap/Blocks has the abstract heap, a list of sizes and marks; Kheap/Malloc and
--   Kheap/Free relate the code to it, by way of Kheap/Merge; Kheap/Fit and Kheap/Coalesce are about
--   the abstract heap.
-- - kernel/mm/paging/vmm.c, the page tables: Vmm takes its tables from `alloc_block` of Pmm. Vmm/Entry
--   has the bits of an entry, Vmm/Space the well-formed tables, Vmm/Write a write of one entry, Vmm/Map
--   the effect of `map_page` on what `get_phys` returns and Vmm/Unmap that of `unmap_page` on it and on
--   the table entries. Vmm/Init is `vmm_init`, with its loops in
--   Vmm/Init/Ranges and its result in Vmm/Init/Outcome; Vmm/Free is `vmm_free_directory`.
--   Addresses of directories and tables are physical, but for what `vmm_clone_directory` and
--   `vmm_get_kernel_directory` return, which is `P2V` of them as in the code.
-- - kernel/core/pe.c, the program loader, is Pe and Pe/Load: `pe_load` on the page tables and the physical
--   memory, which is reached through them; a page fault is `none`. Pe/Page is about a page that is added,
--   Pe/Directory about the outcome of `pe_load` and the directory in use, on Pe/Reads and Pe/Keeps.
-- - kernel/include/libk/string.h: LibK/Memory has the memory functions on bytes, LibK/Text the
--   functions on strings; LibK/Copy and LibK/Compare prove what they do.
-- - kernel/core/events.c is Events and kernel/drivers/char/tty.c is Tty; Events/Queue and Tty/Queue
--   relate the rings to queues.
-- - kernel/net/arp/arp.c is Net/Arp, over the interface to the Ethernet driver in Net/Link;
--   Net/Arp/Cache is about the cache and Net/Arp/Exchange about a request and its reply.
-- - kernel/net/udp/udp.c is Net/Udp: `udp_handle` puts a datagram into the queue of its port and wakes
--   the threads that wait there, `udp_recv` takes it; Net/Udp/Deliver relates the two.
-- - kernel/net/ipv4/ipv4.c is Net/Ip, with `udp_send` of udp.c: `ipv4_send` and `ipv4_handle` on a
--   record of the statics of the network, each with the other as an argument, since a packet to
--   ourselves is handled at once. Net/Ip/Checksum and Net/Ip/Loopback prove what they do.
-- - kernel/net/dns.c is Net/Dns: `dns_query` builds the packet, `parse_response` reads the answer, and
--   `dns_resolve` puts them between `udp_send` and `udp_recv`.
-- - kernel/fs/vfs/vfs.c is Vfs, over a record of the functions that the nodes point to;
--   Vfs/Path relates `vfs_find_path` to a walk along the names of a path.
-- - kernel/fs/fat32/fat32.c is Fat: the statics, the drivers and `fat32_init` in Fat, names in Fat/Name,
--   the allocation table in Fat/Table, directory entries in Fat/Entry, `fat32_read_file`,
--   `fat32_vfs_read` and `fat32_vfs_write` in Fat/File, and the operations on directories in Fat/Dir.
--   Its functions are code in a world that the record `Drivers` works on. Fat/Volume states the laws
--   of a disk, and what it is for code to keep the disk or to leave it so; Fat/Runs is code that comes
--   back in every world. Fat/Table/Entries, Fat/Table/Free, Fat/Entry/Find, Fat/File/Reading,
--   Fat/Dir/ReadOnly, Fat/Dir/Found, Fat/Dir/Full and Fat/Probe have the theorems, on Fat/Name/Ends,
--   Fat/Dir/Created, Fat/Table/Dwords, Fat/Table/Copies,
--   Fat/Name/Places and Fat/Entry/Fields.
-- - kernel/proc/task/process.c and kernel/proc/scheduler/scheduler.c are Proc, with threads and
--   processes at their addresses, and kernel/proc/wait.c is Proc/Wait. Proc/Ring has the circular
--   queue, Proc/Queue and Proc/Pick the scheduler's operations on it, Proc/Terminate and
--   Proc/Processes the operations on processes. Proc/Services is the interface to the heap, the page
--   tables and the task state segment; over it Proc/Create makes processes, Proc/Reap cleans them up
--   and waits for them, and Proc/Schedule is `scheduler_schedule`. Proc/Create/Table has the invariant of the
--   table of processes and Proc/Create/Keeps that it is kept, on Proc/Reap/Unlink and Proc/Reap/Waitpid.
-- - kernel/syscall/table.c is Syscall: the checks of pointers and descriptors, with Syscall/Pointers and
--   Syscall/Descriptors; the calls, over an interface to the other parts, in Syscall/Calls; the split of a path
--   in Syscall/Paths and Syscall/Joins; and `syscall_handler` in Syscall/Handler, with Syscall/Faults.
-- Base has what they share: tests on numbers, lists, bits of words, the search of a table
-- (Base/Search) and what a ring holds (Base/Window). The Tests of each part run it on examples.
--
-- Fuel: loops over linked structures (the heap's list, the queue, the processes, strings) take fuel
-- and return `none` without it; the theorems about them say how much is enough, a round for each
-- element and at most one more. `fat32_vfs_read` takes a round for each byte at most, `ipv4_send` one
-- for each packet to ourselves, and `vfs_find_path` one for each name. Loops with a bound in the code recurse on what is left of it.
--
-- Hypotheses: addresses and sizes are 32-bit words (LibK takes addresses without their
-- wrap-around), the heap ends below 2 ^ 32, and the driver of the network is an argument, of which
-- nothing is assumed but the address that it reports. Some theorems on FAT32 assume a heap that has
-- memory and a drive that works (`IsReliable`), some only that nothing but a write changes the disk
-- (`IsQuiet`), and some nothing.
--
-- Not modelled: output (kprintf, fat32_ls), the TLB and control registers, the context switch
-- itself, the start of the kernel, device drivers and the user interface; what SYS_EXEC, SYS_GETDENTS and
-- SYS_PS do behind the check of their pointer, the page loop of kheap_init, strcpy and strstr, the device file system and the package manager.
-- Interrupts, what is done at a page fault, and the programs of userland are left out too.
pub mod Base
pub mod Pmm
pub mod Pe
pub mod Kheap
pub mod Vmm
pub mod LibK
pub mod Events
pub mod Tty
pub mod Net
pub mod Proc
pub mod Syscall
pub mod Vfs
pub mod Fat
