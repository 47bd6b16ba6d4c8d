-- ===== src/Lib.antt =====
-- UC: a collection of C++ programs and small libraries on data structures, shared memory, threads
-- and coroutines. This library models those that have a logic of their own.
--
-- - example_shm_hashtable2.cpp, `CHashShm`: a hash table of rows in a shared memory segment, keyed
--   by numbers or by texts that `hash_time33` hashes. `Probe` has the loops over the rows;
--   `HashShm` has the segment (`Memory`: `m_hashHead` and the nodes), the object (`Table`) and the
--   operations: `insert` is `Set`, `get` is `Get`, `replace`, `remove`, `clear`, `foreach`, `init`.
--   `HashShm.Time33` has the hash and `HashShm.Text` the operations under a text. The number of
--   rows `lines` is a parameter, with the 64 of PRIMER_TABLE_LEN as its bound.
-- - example_shm_hashtable1.cpp, `hash_shm`: an earlier such table, whose rows have prime lengths that
--   `getMode` computes, in `PrimeTable`, with the loops of `Probe` in its proofs.
-- - example_unlockqueue.cpp, `UnlockQueue`: a queue of bytes in a ring. `Ring` has the constructor,
--   `Initialize`, `Put`, `Get`, `Clean` and `GetDataLen` on 32-bit indices that wrap.
-- - coroutine.cpp, coroutine.h: a scheduler of coroutines that take turns on one stack. `Coroutine`
--   has each function up to its `swapcontext`; `Coroutine.Steps` has what a program can do with a
--   scheduler, one step at a time and in any order.
-- - example_thread_pool.cpp: a pool of threads that take tasks from a list under a mutex, in
--   `ThreadPool`. `access` is the next access that a thread makes in `thread_routine`,
--   `pool_add_worker` or `pool_destroy`, `Step` interleaves the threads, with the signals and the
--   wake-ups of the condition variable, and `Reach` has the states that come of it. The loop of
--   `pool_destroy` that frees the list takes the list apart in steps of its own, without the lock.
-- - example_sort.cpp, example_quicksort.cpp, example_heapsort.cpp: sorting of an array that is a list.
--   `Sort` has `insertSort` and `shellSort`, `Sort.Merge` has `mergeSort`, `Sort.Heap` has `heapsort`
--   and `Sort.Quick` has `quicksort`; `Sort.Shuffle` has what they share.
-- - example_binarysearch.cpp: `binarySearch` and `BinarySearchRecursive`, in `Search`.
-- - example_binary_tree_adt.cpp: a binary search tree with `insNode`, `delNode`, `find`, `findMin`
--   and `findMax`, in `SearchTree`.
-- - example_binary_tree_avl.cpp: an AVL tree with `insNode` and its rotations, in `Avl`. A read through
--   NULL is `none`.
-- - example_left_heap.cpp: a leftist heap with `merge`, `insert1` and `deleteMin`, in `LeftHeap`.
-- - example_bplus_tree.cpp: the nodes of a B+ tree and `search`, `insert` and `clear`, in `BPlus`;
--   `BPlus.Borrow` has what the nodes do for a removal: `removeKey`, `borrowFrom`, `mergeChild`. A
--   tree is a value (`Node`), with an array as a function of its index.
-- - example_hashtable2.cpp: a hash table of texts with chains, in `ChainTable`.
-- - example_hashtable.cpp: a hash table with open addressing, in `OpenTable`.
-- - example_trie.cpp: `insert` into a trie with its counters, and `do_travel`, in `Trie`.
-- - example_binary_tree.cpp, example_binary_tree2.cpp: binary trees that are read from the input, in
--   `BinaryTree`, with the traversals and the depth.
-- - example_mem_pool.cpp: a pool of memory blocks in two linked lists, in `MemoryPool`. A block is a
--   number and a read through NULL is `none`.
-- - example_morse.cpp: `encodeMorse` and `decodeMorse`, in `Morse`.
--
-- These are separate programs: none calls another. `Prelude` has the Boolean tests and the
-- lemmas on lists that they share, over the native numbers.
--
-- Bounds and fuel: `unsigned long` is below 2 ^ 64 and `unsigned int` below 2 ^ 32, and sums are
-- reduced where the code's may wrap. `roundup_power_of_two` shifts at most 64 times, which is
-- enough for any bit of 64 to be met. `hash_time33` has its length as fuel, of which a round takes
-- eight. The searches and the loops of the sorting routines have the number of elements, of which
-- a round leaves at least one out, and `merge` of heaps has the number of their nodes. `getMode`
-- has `maxLine` / 6 + 1 rounds until its counter would go below 0, and its inner loop ends before
-- `p` is `m` + 2. The loops of `OpenTable` have a round for each place of the table. `getKeyIndex`
-- has the number of keys, and `recursive_insert` the depth of the root. `decodeMorse` and
-- `createBinaryTree` have the length of their input. Other loops run over a list or count down.
-- `mergeSort` and `quicksort` have a bound on the depth of their calls, each of which has fewer
-- elements. The steps of the thread pool need no bound. `mergeSort`, `heapsort` and the searches
-- compute their indices in `int`: a sum of 2 ^ 31 or more is `none`, as is fuel that runs out.
-- `do_travel` is `none` where it writes behind the 129 places of `worddump`.
--
-- Not modelled: allocation that fails, but for that of `mergeSort`; the operating system (shmget,
-- shmat, files, sockets), whose answers are arguments where an operation depends on them; floating
-- point; and `swapcontext`, which passes control on. The mutex and the condition variable of the
-- thread pool do what their documentation says, in `ThreadPool.Step`, and a task of the pool does
-- not call the pool. Of sorting, `bucketsort` is left out. Of the B+ tree, the links between the
-- leaves, what follows them (`select`, `printData`), and `remove`, which goes on with nodes that
-- are deleted, are left out. The memory barriers of `Put` and `Get` are left out: here calls come
-- one after another.
pub mod Prelude
pub mod Probe
pub mod HashShm
pub mod Ring
pub mod Coroutine
pub mod Sort
pub mod Search
pub mod SearchTree
pub mod LeftHeap
pub mod Trie
pub mod BPlus
pub mod ChainTable
pub mod OpenTable
pub mod PrimeTable
pub mod ThreadPool
pub mod Avl
pub mod Morse
pub mod MemoryPool
pub mod BinaryTree
