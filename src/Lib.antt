-- ===== src/Lib.antt =====
-- A verification library for skp, a C toolkit of containers, locks, a memory allocator, threads with
-- work queues, and servers.
--
-- The parts, and the modules on them (paths from the root of the repository):
--   Ring     src/adt/ring.c and include/skp/adt/ring.h, the ring buffer. `Ringb` is `struct ringb`
--            with the slots behind it as a list; `do_enqueue` and `do_dequeue` are
--            `__ringb_do_enqueue` and `__ringb_do_dequeue`, built from `move_prod_head`,
--            `move_cons_head`, `update_tail`, `enqueue_ptrs` and `dequeue_ptrs`; Ring/Api has the
--            inline calls and Ring/Queue the queue that they promise, with its own rule of how many entries a
--            call moves. Pointers are numbers. The
--            positions are 32 bits wide and wrap.
--   Rwsem    src/utils/rwsem.c and include/skp/utils/rwsem.h, the read-write semaphore. `Sem` is
--            `struct rw_semaphore`, a `Waiter` is a `struct rwsem_waiter`, and each function is what a
--            call does between taking the spin lock and giving it up. Rwsem/System interleaves
--            these sections for any number of threads.
--   ListSort src/algorithm/list_sort.c, the merge sort of linked lists. A list is its sequence of nodes,
--            the comparison is the caller's; `place` is a turn of the loop over the list, with the
--            carry through `part[]`, and `Linked` is what the `next` and `prev` links hold after.
--   Dict     include/skp/adt/dict.h and src/adt/dict.c, the hash table. `Dict` is `struct dict` with the two
--            tables that `active` and `rehash` point at; Dict/Table has the chains, the counter and the
--            map of one table, Dict/Rehash `__bucket_rehash`, `__dict_rehash` and
--            `__dict_resize_if_needed`, Dict/Calls the calls, Dict/Iter the iterator. The map is a
--            list of bits. The caller's callbacks are the fields of `DictOps`.
--   Vector   include/skp/adt/vector.h and src/adt/vector.c, the array of distinct elements. The memory is a
--            list of slots and an index stands for a pointer; Vector/Contents says which elements it
--            holds.
--   Hash     src/utils/hash.c and include/skp/utils/hash.h, the hash functions and the CRC. A key is the
--            list of its bytes; Hash/Crc has the table of `byteCrc32`, and Hash/Crc/Bitwise the shift
--            register that it stands for.
--   String   src/utils/string.c and include/skp/utils/string.h. `str2int` gives what the call returns and what it
--            writes; String/Decimal has the numbers that texts stand for. `Sstr` is `struct sstr`, its
--            union a `Storage`; String/Short has what its calls promise.
--   Uref     include/skp/utils/uref.h, the reference count; each atomic operation is one step. Uref/System
--            interleaves the threads that take and give back references.
--   Pgalloc  src/mm/pgalloc.c and `struct zone` of include/skp/mm/mmzone.h, the blocks that a zone has free: `rmqueue`
--            is __rmqueue and `free_pages_bulk` is __free_pages_bulk, with what the debug checks add left out.
--            Pgalloc/Weigh has what holds of a zone between calls, Pgalloc/Take and Pgalloc/Bulk what the
--            two calls do to it. Pgalloc/Thread has the single pages that a thread keeps: `free_hot_page`, and `hot_page`
--            for what buffered_rmqueue does for one page.
--   Idr      src/adt/idr.c and the bit search of src/utils/bitmap.c. `idt_init`, `idt_alloc` and `idt_next` have the names
--            of their calls, `idt_remove` is __idt_remove. Idr/Valid has what holds between calls, Idr/Place the
--            ids as bits of maps, Idr/Claim and Idr/Turn one turn of a search, Idr/Alloc, Idr/Remove, Idr/Next
--            and Idr/Init the calls.
--   HeapSort src/algorithm/heap_sort.c, on byte offsets in ints. `sift` is the loop that both loops of heap_sort have
--            inside, `heapify` and `sort_down` are those two. HeapSort/Elements has the same sort with places counted in
--            elements; HeapSort/Sift and HeapSort/Sink have its heap order, HeapSort/Sorted what it does.
--            HeapSort/Bytes and HeapSort/Loops lead the loops on bytes back to it, for HeapSort/Correct.
--   Bitops   include/skp/utils/bitops.h, the powers of two that the containers rely on.
--   Common   what these share: lists over the native numbers, Boolean tests, words, the integers.
--
-- Bounds and fuel. A ring has at most 2 ^ 31 slots, the bound that RINGB_SZ_MASK stands for. The loops
-- in `move_prod_head` and `move_cons_head` go round only when an exchange on a head fails; one turn of
-- fuel is enough for a call that no other thread disturbs, and the theorems on the calls say that
-- they return. `add_not_zero` goes on as long as it is given counts that its exchanges find. `claim_bit`
-- has two turns, of which the second finds its bit clear, and `sift` a turn for every element, which are
-- enough since it goes down a level in each. MAX_ORDER and the number of bits of a page are values of the
-- build, and any will do. Every other
-- loop of the code is by recursion on what is left to do. `decimal_onto`, the printing that `str2int`
-- is compared with, has the number itself as fuel, which has no more digits than that.
--
-- `heap_sort` is read for arrays of at most 2 ^ 30 bytes, where its int offsets do not overflow. The counter of
-- a semaphore is an int in the code and an unbounded integer here, so at most 2 ^ 31 - 1 readers hold it at a time; a
-- waiter's flags hold its kind and its wakes in one int, which are two fields here, for less than 2 ^ 28 wakes.
--
-- Not modelled: the interleaving of several producers or consumers inside a call on a ring, and of other threads
-- inside a call on an id allocator or while a zone gives a block to the system; the spin
-- lock and the futex under the semaphore, of which is used that sections under the lock exclude each
-- other and that a sleeper may wake at any time; allocation of memory, of which only its
-- success or failure is an argument; the containers, allocators and servers that no module above names.
pub mod Common
pub mod Bitops
pub mod Ring
pub mod Rwsem
pub mod ListSort
pub mod Dict
pub mod Pgalloc
pub mod Hash
pub mod HeapSort
pub mod Idr
pub mod String
pub mod Uref
pub mod Vector
