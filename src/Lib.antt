-- ===== src/Lib.antt =====
-- A verification library for the Pintos kernel of this repository: its operations as functions and
-- the properties that make them correct. Paths are from the repository's root.
--
-- Conventions. A routine that changes state takes the state and returns the new one. `none` is a
-- kernel panic: a failed ASSERT, a PANIC, or an access outside an array that the routine indexes.
-- Numbers are natural numbers; where C arithmetic can wrap, the remainder by 2 ^ 32 or 2 ^ 64 is
-- written out. Loops recur on the rounds left, on a list, or on fuel with a proof that it suffices.
-- Outside Rwlock, Thread and Synch, calls run one at a time: locks, interrupts and interleavings are left
-- out.
--
-- Parts, from the bottom up.
-- - Common: numbers, lists, the panic monad, the digits of machine words, buffers and `memcpy`.
-- - Bitmap (src/lib/kernel/bitmap.c): bits in 32-bit elements. View gives the bits that a bitmap
--   stands for, Range and Scan the routines on ranges, Create allocation and counting. The file
--   input and output at the end of bitmap.c is not modelled.
-- - Block (src/devices/block.c): sector reads and writes with the bounds check. The driver behind
--   a device is taken for a store of sectors.
-- - Swap (src/vm/swap.c): slots of eight sectors on a device, taken and given back through a bitmap.
--   Loops has the two loops, Roundtrip the operations.
-- - Cache (src/filesys/cache.c): 64 blocks in front of the devices. The list of blocks by last use is
--   the list of their indices. View has the contents of a sector as a client sees them and the
--   invariant; Lru, Install, Evict and Served the steps; Access, Flush and Free the operations. The
--   flush thread and the locks are left out. A read or write past the end of a sector is not
--   checked by the code, and its callers make none.
-- - Fs (src/filesys/inode.c and free-map.c): the state those two share, which is the cache over the
--   file system device, the free map and the read-ahead list. Laws has what reads and writes of
--   sectors do to the sectors as the cache shows them. The write of the map to its file, which goes
--   back through file.c to the inodes, is a parameter that may fail.
-- - FreeMap (src/filesys/free-map.c): Allocate and Release have the two operations, Save what they
--   share. The opening, closing and creation of the file are not modelled.
-- - Inode (src/filesys/inode.c): the index of an inode. Index has its blocks as one list, Lookup and
--   Sector the way from an offset to a sector, File the bytes of the file as one array, Whole the
--   files whose sectors are all there, Read the loop of a read, whose fuel is the number of bytes asked
--   for: each round that goes on reads one byte at least. Disk has the 512 bytes of an inode. Grow and Rollback are `inode_grow_unlocked`
--   before and after its label `fail`, Full and Loses the growth of a file on a full device. Write is
--   `inode_write_at`, whose fuel is the number of bytes to write; Update and Written have what one
--   copy into a sector does to the file, Store the loop, Roundtrip the write as a whole. Open
--   has opening, closing and removal with the list of open inodes, Reopen what an open and its close
--   do, Create the creation, FileCnt the count of entries of a directory. The locks are not
--   modelled, and of the thread that reads ahead one round is.
-- - File (src/filesys/file.c): an open file with its position over the list of open inodes. Laws has
--   reads in a row and the denial of writes.
-- - Heap (src/lib/kernel/heap.c): a pairing heap as a tree of values. Count has its contents by
--   counting, Order its order, Pop the operations.
-- - Timer (src/devices/timer.c): the queue of sleeping threads, a heap by the tick to wake at. Wakeup
--   has the loop of the interrupt handler, whose fuel is the size of the queue: each round takes one
--   thread out of it. Sleep has a sleep through any number of interrupts.
-- - Rwlock (src/threads/synch.c): the read-write lock with its queue. A call is one step, since it holds
--   the lock inside. Grant has the loop of the release, Safety the states that calls lead to.
-- - Thread (src/threads/thread.c): threads by the page of their structure, the ready list, the list of
--   all threads and the switch, without the feedback queue. A call is one step up to the switch, and
--   so is `thread_create`; identifiers do not wrap. Max has the search for the greatest thread, Ready
--   the invariant, Schedule the choice of the next thread, Moved a change of state with the lists,
--   Switch and Leave the calls that switch, Preempt those that yield to a greater thread, Added and
--   Create new threads, Run any sequence of calls. The boot of the scheduler is left out: the states
--   looked at have their idle thread.
-- - Synch (src/threads/synch.c): semaphores, locks with the donation of priorities and condition
--   variables over the state of Thread. A routine that sleeps is cut there: the thread goes on with a
--   new round when it runs again. Raise and Donate have the donation, whose calls are the nine that its
--   depth leaves, Wake the end of a semaphore's wait, Acquire the wait for a lock, Found, Dropped and
--   Release its release. `cond_broadcast` is left out.
-- - Directory (src/filesys/directory.c, with the string routines it calls from src/lib/string.c): a
--   directory as a file of entries over the inodes. Lookup and Slot have the two searches, whose fuel is a round for each entry and one more, Outside, Named,
--   Entries, Add, Search and Found the addition of a name. Tree has the opening of directories and the
--   walk along the tokens of a path, Path the tokens, Remove and Removed the removal of a name; a directory
--   knows its inode by the sector. A name in an entry ends at its zero, which `dir_add` always writes.
-- - Palloc (src/threads/palloc.c): groups of pages from two pools, each with a bitmap. Roundtrip has the
--   return of what was given. The set-up of the pools is left out.
-- - Pagedir (src/userprog/pagedir.c): the entries of a page directory and their bits. The flush of the
--   processor's buffer is left out.
-- - Frame (src/vm/frame.c): the frames of user pages in the order of the clock, over Palloc, Pagedir, Swap
--   and File. Clear has the accessed bits, Scan, Lap and Victim the scan for a victim, whose fuel is three
--   rounds for each frame and two more, Evict the eviction and the allocation, Start the states up to the
--   first eviction. The lock is left out; a failed allocation of the list's structures is too.
-- - Filesys (src/filesys/filesys.c): the calls on files by their paths, over Directory, FreeMap and Inode.
--   Copy and Split have the splitting of a path, Calls the calls. Formatting and the set-up are left out.
--
-- Not modelled: pages (src/vm/page.c), processes and system calls (src/userprog/process.c and syscall.c),
-- the hash table (src/lib/kernel/hash.c), the block allocator (src/threads/malloc.c) and formatted output
-- are left for later; device drivers and the boot code act on hardware; user programs and tests are not
-- part of the kernel.
pub mod Common
pub mod Bitmap
pub mod Block
pub mod Swap
pub mod Cache
pub mod Fs
pub mod FreeMap
pub mod Inode
pub mod Heap
pub mod Timer
pub mod File
pub mod Rwlock
pub mod Thread
pub mod Synch
pub mod Directory
pub mod Palloc
pub mod Pagedir
pub mod Frame
pub mod Filesys
