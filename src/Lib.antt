-- ===== src/Lib.antt =====
-- The kernel of Pintos in Submissions/assignment4/10627_10446_10039/pintos/src, the most complete
-- tree of the repository; paths below are relative to it. The other trees under Submissions hold
-- the same kernel at earlier assignments.
--
-- The parts that are modelled, from the bottom up:
--   Common   the results of kernel code (`ok`, `panic` for a failed ASSERT or PANIC, `hang` for a
--            loop that ran out of fuel), tests, lists and arrays over the native numbers.
--   Bits     bits of 32-bit words: what or, and, xor and complement do to each bit.
--   Bitmap   lib/kernel/bitmap.c. `Bitmap` is `struct bitmap`, with the words in a list; each
--            function has its name in the source, and each loop a function of its own
--            that recurses on the number of rounds left. `Bitmap.View` says what a bitmap stands
--            for.
--   FreeMap  filesys/free-map.c over Bitmap: which sectors of the file system device are in use.
--            The call of `bitmap_write` on the free map file is a function that is a parameter, on
--            a state of any type: it writes the map through files, inodes and the cache, which
--            themselves need the free map. `Inode.MapFile` is what the inodes rely on: where the
--            file is ready on the disk, which its own sectors decide, the call returns, leaves it
--            ready, and changes no other sector of the disk than those of the file. The panic
--            of `free_map_release` where the file is NULL is part of the model.
--   Block    devices/block.c over the interface `BlockOperations` of a driver, whose laws say that
--            a sector reads back what was written there last.
--   Cache    filesys/cache.c over Bitmap and Block: 64 cached sectors with second-chance
--            eviction. `Cache.Coherent` says which contents a cache stands for at each sector.
--   Inode    filesys/inode.c over the interface `SectorCache` of the buffer cache. `Inode.Layout` says
--            what the block lists of an inode mean on a disk that is a function from sectors to
--            bytes, and `CacheLaws` what is asked of the cache; `Inode.Cached` shows that Cache meets
--            it. Definitions: `Inode` finds and reads blocks, `Inode.Grow` adds blocks from FreeMap,
--            `Inode.Update` writes, `Inode.Open` has the list of open inodes, creation and removal.
--   Arithmetic  lib/arithmetic.c: 64-bit division by the 32-bit instruction DIVL.
--   CString  lib/string.c on strings as lists of characters: comparison, search, tokens, copies.
--   KernelList  the algorithms of lib/kernel/list.c on ordered lists, less the links. The loop of
--            `inplace_merge` takes at most as many rounds as the runs have elements, and
--            `list_sort` as many passes as the list has elements and one more, since each pass
--            halves the number of runs.
--   Threads  threads/thread.c: the status of each thread, the ready list and the switch.
--   FileTable  the file descriptors of threads/thread.c, and the lookup of a file.
--   Synch    threads/synch.c over Threads. A function is cut where interrupts are on and another
--            thread may run: `sema_down_round` is one turn of the loop in `sema_down`. `Usage` has
--            the steps that the threads take with one lock, under preemption at any point,
--            and `Usage.Invariant` what every reachable state satisfies.
--   Tests    runs at concrete inputs, among them a disk in memory that meets the driver's laws.
--
-- `size_t` and `block_sector_t` have 32 bits; where the source adds two sizes the model keeps the
-- wrap-around (`add_size`). The `while` loop of `evict_cache` recurses on fuel: two rounds, since
-- the first one clears the accessed flag of every idle entry that it does not evict. The loops of
-- `inode_read_at` and `inode_write_at` recurse on fuel: one more than the bytes to copy, since each
-- round but the last copies at least one. The last loop of `file_grow` has two rounds, since the
-- second leaves no block to add. Words of 32 bits in inodes are compared as signed where the source
-- does; positions and sizes are taken not to be negative.
--
-- A call is modelled between taking and releasing its lock, so that no other thread is active:
-- the reader and writer counts of the cache are then 0 between calls. Memory that malloc returns
-- is an argument with any content; the entries of the cache and their pages are taken to be
-- allocated. Counts of openers and of denied writes are taken to stay below 2 ^ 31, and a read of
-- the cache past the end of a page, which finds the memory behind it, is not given a meaning: the
-- theorems are on reads within the page. Not modelled: the file I/O of bitmaps, the registration of
-- block devices, read-ahead and periodic write-back, condition variables, the creation of threads,
-- the locks of inodes, the part of `inode_close` that reads lists through a NULL pointer (a panic),
-- and the rest of the kernel: directories, system calls, virtual memory and drivers.
pub mod Common
pub mod Arithmetic
pub mod Bits
pub mod Bitmap
pub mod FreeMap
pub mod Block
pub mod Cache
pub mod Threads
pub mod FileTable
pub mod Synch
pub mod CString
pub mod KernelList
pub mod Inode
pub mod Tests
