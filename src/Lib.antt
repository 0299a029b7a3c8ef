-- ===== src/Lib.antt =====
-- A verification library for the course archive: kernel modules and the user programs that exercise
-- them. Each part is a translation of its C source, with the theorems about it in the modules beside
-- it. Kernel calls, forks, random numbers and floating point are parameters.
--
-- Machine: runs that may fault, and arrays with their bounds, for Sort, Matrix and KernelMemory.
--
-- Base: what the parts share. Natural numbers are the native ones; an `unsigned` or an `unsigned long`
--   is a number whose wrap-around is written out. Base.Lists, Base.Predicates, Base.Totals, Base.Tests and
--   Base.Int hold lists, predicates on lists, sums, Boolean tests and the integers.
--
-- Paging: labs/lab2/mod/paging.c, the device /dev/paging. Kernel is the module's state (the parameter
--   demand_paging, the list of pages, the two counters, the live structs with their counts) with the
--   kernel as a parameter: each reply is a function of the calls so far, and every call is logged.
--   Driver is one function per handler: do_fault, paging_vma_fault, paging_vma_open, paging_vma_close,
--   paging_mmap, init and exit. Ledger, Close, Prepage and Mmap prove what each handler does; System
--   is a step relation of mappings opened, faulted on and closed, and Invariant and Safety are about
--   its reachable states, one handler at a time. Contract says what the module promises, over a bag of
--   pages and the counts of the structs, and Refinement is about the steps under that view. Sample has
--   test data. A null pointer or a dead struct is an oops, which ends the run. The loop of pre-paging
--   has vm_end - vm_start + 1 rounds of fuel, one more than it has bytes to pass, which is enough for
--   each positive page size. printk and the class of the kernel's own errors are left out.
--
-- Sort: labs/lab2/user/sort.c, the workload that sorts an array mapped from the device. Doubles has
--   `double` as an abstract type with an order and the conversions to and from `unsigned`; Program has
--   swap, partition, quicksort, the loops of main and main. Fuel larger than the range is enough for
--   quicksort. Malloc has the main of user_space/test_programs/sort.c, over a block of malloc. Timing and
--   printing are left out, but for what error_quit prints.
--
-- KernelMemory: studios/studio12/kernel_memory.c. Order is my_get_order, whose loop has 33 rounds of
--   fuel, one more than an `unsigned int` has bits. Program is the module: the thread that fills the
--   pages, the check on removal, and the life of the module, over a block of words with its bounds; the
--   loops count the rounds that are left. Words and Fill prove what the fill writes, Clean what the
--   check finds, Lifetime both together, and NoBlock what happens without pages.
--
-- TreeFork: user_space/tree_fork.c and its copy studios/studio5/tree_fork.c. The loop of main gives
--   the tree of processes, where the outcome of each fork is a parameter; its fuel is the number of
--   generations. wait is left out.
--
-- SharedMemory: studios/studio13/leader.c, follower.c and shared_process.h, as two program counters
--   over the shared data. A step is one access, in a sequentially consistent memory; SHARE_SIZE is a
--   parameter. The calls that make the mapping come before the first step and are left out. Channel is
--   the view from outside, of one array that is delivered.
--
-- LineFile: studios/studio16. Program has writefile.c, writefile_fputs.c, writefile_sys.c, appendfile.c
--   and appendfile_count.c as functions of the arguments and of the file's old contents, where writes
--   are complete; Reader has readfile.c as a loop over a stream of bytes, with three rounds of fuel more
--   than the file has bytes, which is enough, since each round but the last takes a byte. It keeps the
--   size of the buffer and what getline is told of it. Whether malloc finds memory, the size that getline
--   gives a buffer, and what the buffer shows after a getline at the end of the file are a parameter.
--   Write, Number, Ends, Room, Records, Read and Short prove what the programs leave and print.
--
-- Matrix: labs/lab2/user/dense_mm.c. Program has the three loops and main, over doubles with an
--   abstract sum and product and three mappings with their bounds; each loop counts the rounds that are
--   left. Product and Main prove what main leaves in the third matrix.
--
-- Signals: studios/studio20. System has sender.c and receiver.c, with the kernel's queue of signals
--   between them, as a step relation in which sigqueue may refuse a signal; Count is about its
--   reachable states and Ending about the end of its runs. Printing has print500000.c as a step relation
--   in which the handler may run between any two accesses; Interrupts and Reports are about its runs.
--
-- MallocMatrix: the matrix programs of user_space/test_programs, whose copies are in studios/studio14.
--   Program has dense_mm.c; Columns and Timed have parallel_dense_mm.c and timed_parallel_dense_mm.c,
--   which go through the columns first, Statistics what the timed program keeps of its runs, and Checked
--   both with VERIFY_PARALLEL, as one thread runs them. Team has the loop of parallel_dense_mm.c with
--   OpenMP, which the Makefile asks for: its columns run at the same time, and a step is one access to
--   the third matrix; Iteration, Schedules, Steps and Parallel are about every order of them. Generated,
--   Repeated and Extremes prove what the programs compute, Compared and Verdicts when the comparison of
--   VERIFY_PARALLEL passes. Interleaved is a run of two threads in turn, Sample the test data.
--
-- Server: studios/studio18/serverip.c, with the replies of its system calls as a parameter and a list of
--   events. A round of fuel is a client. Coffee says when the loop over a client's numbers asks for the
--   end, Closing that the server then has closed every descriptor.
--
-- Sysfs: studios/studio5/kobject-example.c and family_reader.c, attributes that are written and read, and
--   a walk over the parents of a process, with the 500 rounds that the code gives it.
--
-- Timers: labs/lab1/recurring_timer.c, with one thread, and mt_recurring_timer.c, with four, as a step
--   relation over any number of threads: the loading, in which a thread may fail to be created, the
--   threads' loop, the timer's function as one step, and the removal, with kthread_stop as the setting of
--   the flag, the waking and the wait. The use of a pointer to a thread that was not created crashes.
--
-- Threads: studios/studio8/core_thread.c and core_thread_atomic.c, the loading and the removal of the
--   module together with the threads, one access to a shared variable to a step: State is what there is,
--   System the steps. The number of rounds is a parameter.
--
-- VfsThread: studios/studio15/vfs_thread.c, with the kernel's structures and lookups as a parameter. Its
--   thread gives the lines that it prints, how it ends, and what it does: references and a write. Target
--   and Ending are about that, Subdirs about the lines. The loops run over lists and need no fuel.
--
-- ArrSearch: user_space/test_programs/arr_search.c, whose copies are in studios/studio14. Program has the
--   work function and the loop of main over abstract floats, with sqrt, bsearch and malloc as
--   parameters; the loops count the rounds that are left. Rounds is about the blocks.
--
-- Device: the programs of labs/lab2/user together with the module of labs/lab2/mod. Pages has the rounding
--   of an array's length to whole pages, which is what mmap does, Elements the pages that an array's
--   elements lie on, and Quicksort the run of sort.c on such an array.
--
-- UserSpace: the small programs. Allocate has user_space/ten_malloc.c, Fork user_space/simple_fork.c with
--   the buffer of standard output, Verses user_space/test_programs/sing.c, and Clocks getdelay.c and
--   getres.c there. Their copies in studios are the same files.
--
-- Not modelled: what the kernel's build generates, and the compiled modules and traces. Of the C files,
-- user_space/do_nothing.c and studios/studio15/printmypid.c, which have nothing to state, are left out.
pub mod Base
pub mod Machine
pub mod Paging
pub mod Sort
pub mod KernelMemory
pub mod TreeFork
pub mod SharedMemory
pub mod LineFile
pub mod Matrix
pub mod MallocMatrix
pub mod Signals
pub mod Server
pub mod Sysfs
pub mod Timers
pub mod Threads
pub mod VfsThread
pub mod ArrSearch
pub mod Device
pub mod UserSpace
