-- ===== src/Lib.antt =====
-- A verification of the assignments of this repository: the system call interceptor of A1, the
-- intersection of A2, the paging simulator of A3, and the ext2 tools of A4.
--
-- Prelude: what the parts share. Numbers are unbounded with the wrap-around of C written out; a
--   word is a number whose bits Prelude/Word.antt sets, clears and tests; an array is a list or a
--   function of the index. A program that changes a global state is a command of
--   Prelude/State.antt, a function from the state to a result with the new state, or to `none`,
--   which stands for what the program does not survive: a failed assertion, an access out of
--   bounds, a null pointer, a deadlock on a spin lock, a write to a read-only page, or a loop
--   that has used up its fuel. `Returns P r` says that a run does end, with P of its outcome, and
--   `Sure P r` that it has P of its outcome if it does not crash.
--
-- Interceptor: A1/interceptor.c. Kernel.antt has the state: the system call table with the RW bit
--   of its page, the module's table of intercepted calls, the two spin locks and the log.
--   Pids.antt has the lists of monitored processes (add_pid_sysc, del_pid_sysc, del_pid,
--   destroy_list, check_pid_monitored, check_pids_same_owner), Syscall.antt has my_syscall with
--   its four commands, interceptor and my_exit_group, Module.antt has init_function and
--   exit_function. The proofs: Invariant (what holds while the module is loaded), Entries and
--   Runs (single steps), Calls (my_syscall), Loops and Lifecycle (loading, unloading, exiting),
--   Monitor (what is logged), Reach (any history of calls). What the kernel answers (the caller,
--   whether a process is there, whether kmalloc finds memory) are arguments of a call. One call
--   runs at a time: the interleavings of calls on several processors are not modelled.
--
-- Swap: A3/swap.c, the bitmap of the swap slots. Bitmap.antt has the operations, the files below
--   it the proofs. Words are 32 bits; bitmap_destroy, which only frees, is left out.
--
-- Paging: the rest of A3. Machine.antt has the global variables of A3/pagetable.c, A3/sim.c and
--   the algorithms as one record, Swapping.antt has swap_pageout and swap_pagein, Policies.antt
--   has the five replacement algorithms (A3/fifo.c, clock.c, lru.c, rand.c, opt.c), Table.antt
--   has A3/pagetable.c, Sim.antt has access_mem and replay_trace, Start.antt has the start of
--   main and what it calls. The parts of a C function that a proof needs by themselves are
--   functions of their own: allocate_frame is choose_frame, expel and the rest, find_physpage is
--   locate (with load_page on a miss) and touch, and swap_pageout ends in write_page. A pointer
--   to a page table entry is the number of the page, that is, of the slot of the directory times
--   4096 plus the slot of the table (the 64-bit layout of A3/pagetable.h). lseek, read, write,
--   random and posix_memalign are the fields of `Os`, and `IsReliable` says what is asked of them
--   but random: there is memory for each page table (without it the program ends, `none`), a seek
--   succeeds, a write is whole, a read gives back what was written last at its offset, and pages
--   at different slots do not touch. The loop of clock_evict has fuel for one round and one step,
--   which is enough since each step but the last takes a reference bit away. The distance that
--   opt_evict keeps for comparison is an int (as_int); the other int variables, the counters of
--   hits, misses, references and evictions and the time stamps of lru, are not cut to 32 bits: a
--   trace has fewer than 2^31 references. The proofs: Invariant (frames, swap slots and
--   contents), Keep, Place and Slotting (single writes), Expel and Victim (a victim goes),
--   Steady, Evict, Optimal, Clock and Policy (the algorithms), Allocate, Load, Find and Reference
--   (one reference), Replay and Whole (a trace). Below Optimal, the distances that opt_evict
--   keeps from one call to the next are followed through all states of a simulation (Reach) and
--   compared with the accesses that are still to come (Trace). The printing functions, the
--   parsing of the command line and swap_destroy are left out.
--
-- Traffic: A2/cars.c. Path.antt has compute_path and the order in which car_cross locks the
--   quadrants of a path, Lane.antt the lanes with parse_schedule, init_intersection and the two
--   threads of a lane. A thread is its turns: what it does from where it holds the lock of its
--   lane up to where it waits or returns (arrive_turn for car_arrive, cross_turn for car_cross,
--   whose step for one car is cross_front). A turn of car_cross is its first one or begins where
--   it has been woken, when it does not look at the number of cars to arrive before it takes
--   them. The calls of free at the end are left out. Fifo.antt has the runs of all threads as a
--   step relation, in which the turns of any lanes follow one another in any order, and cars of
--   other lanes may move between two cars of one turn. Locks.antt has the four crossing threads
--   at the quadrants: the moves in which they begin a car of any two directions, lock the
--   quadrants of the path that compute_path gives and unlock them, and the states that these
--   reach (Deadlock). Loops on fuel have one round more than there are cars. Ring has the buffer
--   as a queue, Order the paths, Crossing and Turns what a turn does, Schedule the start.
--
-- Ext2: A4. Disk has the bytes of the mapped image and the words in them, Image.antt what the
--   pointers of every main lead to: the two bitmaps, as bytes of the disk and as the arrays that
--   main reads from them, the four free counters, the table of inodes, and the data blocks as
--   bytes. These parts are taken not to overlap, as they do not in an image: superblock, group
--   descriptor, bitmaps and inodes stand before the data blocks. A4/ext2_utils.c: Bitmaps.antt
--   has the bitmaps and allocate_block, Names.antt the file types and the lengths of directory
--   entries, Inodes.antt init_inode and init_dir_entry, Paths.antt get_path_length, Entries.antt
--   write_ent_to_block and find_inode_in_blocks on the entries that lie in a block, Writable.antt
--   get_writable_block, Walk.antt separate_path, make_path_array and verify_path. The strings of
--   separate_path end one byte past their buffers: what a later read finds behind them is an
--   argument of the commands, a `Heap`. The commands, from where the image is mapped: Remove.antt
--   is A4/ext2_rm.c, Restore.antt A4/ext2_restore.c, Create.antt A4/ext2_mkdir.c, Link.antt
--   A4/ext2_ln.c, Copy.antt A4/ext2_cp.c; Check.antt is A4/ext2_checker.c with Counters.antt
--   (inode_check, block_check) and Blocks.antt (file_block_check). A result -1 of an int that is
--   used as an index is the word 2 ^ 32 - 1, and an access to an array with it is a crash
--   (`none`). A loop over the entries of a block has 1025 rounds: the offset grows from 0, and a
--   loop that has not come to the end of the block after 1024 of them never does. The search
--   through tables has 416 rounds, one for each place of the table of an inode, of its indirect
--   table and of block 0, to which it goes from an empty one; get_writable_block has 1000, and
--   write_file_to_blocks one for each block and three more. The walks of the checker take their
--   fuel, and the value that an unset variable has, as arguments. The inode numbers on the disk
--   are taken to be in the table. Entries/Layout.antt has the abstract view of a block of a
--   directory, the list of its entries; the theorems about entries are stated with it. What
--   standard functions do (strncpy, strncmp, strcmp, strtok, memcpy, fread) is written out.
--   Fixes, Entries, Writable, Remove, Restore, Create, Link, Copy and Check have proofs below
--   them; Samples.antt has small images for the examples.
--
-- Not modelled: A4/est2_checker.c, an older copy of the checker that does not compile, A4/test.c,
--   and A3/traceprogs, which are programs that are only run to record their memory references.
pub mod Prelude
pub mod Interceptor
pub mod Swap
pub mod Paging
pub mod Traffic
pub mod Ext2
