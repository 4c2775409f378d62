-- ===== src/Lib.antt =====
-- XKBlas: dense linear algebra on tiles, for machines with several accelerators.
--
-- A routine of blas/ checks its arguments, looks up the descriptor of each matrix (which cuts the
-- matrix into tiles), and inserts one task for each tile operation; the runtime of kaapi/ runs the
-- tasks where the data is or can be moved, in an order that keeps their dependencies.
--
-- Files:
--   Base      shared names, Boolean tests, lists, C integers, binary digits
--   Scalar    what is assumed of matrix elements: a semiring with a conjugation
--   Blas      blas/: Tiling (xkblas_num_of_tiles of blas/common.gen, the sizes of tiles), Descr
--             (blas/xkblas.c: xkblas_init_matrix_handle, xkblas_get_handle), Context (xkblas_find),
--             Task and Insert (blas/ztask_*.c), Kernel (what a task does to memory), Gemm
--             (blas/zgemm.c: xkblas_zgemm_async), Syrk (blas/zsyrk.c:
--             xkblas_zsyrk_async), Gemmt (blas/zgemmt.c: xkblas_zgemmt_async), Symm (blas/zsymm.c:
--             xkblas_zsymm_async), Mapping (the xkblas_map_* calls of blas/xkblas.c and the domains of
--             kaapi/kaapi_ld.c: Tiles the loops, Owners the domain of a tile)
--   Kaapi     kaapi/: Replica (the bitmaps of kaapi_metadata_info_t and the inline functions
--             kaapi_memory_replica_* of kaapi/kaapi_memory.c), HashMap (kaapi/kaapi_hashmap.h and
--             kaapi/kaapi_hashmap.c), Cache (kaapi_memory_cache_remove_from_list,
--             kaapi_memory_cache_push_front and kaapi_memory_cache_touch of kaapi/kaapi_memory.c: Chain and
--             Remove one list in memory, Lists and Touch both), Stream
--             (kaapi/kaapi_offload_stream.h, kaapi/kaapi_offload_stream.c and the functions for streams of
--             kaapi/kaapi_plugin_cuda.c and kaapi/kaapi_plugin_host.c: Process and Cuda what a device does, Ring,
--             Fifo and Order the rings as lists, Insert, Refine, Signed, Advance and Complete each call against
--             the lists, Run, Invariant and Drain a stream in use, Overflow its limits, Offload, Select, Wait
--             and WaitAll the streams of a device), Queue (kaapi_queue_init, kaapi_queue_push,
--             kaapi_queue_pop, kaapi_queue_steal and kaapi_queue_realloc of kaapi/kaapi_task.c: Deque the
--             tasks as a list, Grow what a full array leads to), Heap (kaapi_memory_alloc and
--             kaapi_memory_free of kaapi/kaapi_memory.c: Tiles, FreeList, Names, Coalesce and Fit what
--             they keep, Correct the shape of a heap), Dependencies
--             (kaapi_handle_init, kaapi_update_dependencies and kaapi_sched_activate_syncpoint of
--             kaapi/kaapi_task.c: Modes the access modes, Groups what they mean, Links, Refine and Update
--             the memory against the groups, Activate and Complete the release of a
--             group)
--
-- Conventions. An `int` argument is an integer, a `size_t` a number below 2 ^ 64 with unsigned
-- arithmetic that wraps; sizes are below 2 ^ 31, since the arguments are ints. Tile sizes are what
-- xkblas_auto_tilesize answers: any number from 1 below 2 ^ 32. Counted loops and loops over lists need
-- no fuel; the loop over the accesses of a version, which follows pointers, runs on fuel, and the
-- number of these accesses is enough, as is one more than the waiting instructions for the
-- processing of a stream, and 2 for a blocking wait. Elements are exact: rounding is not modelled. Offsets in a matrix count elements, and matrices
-- at different pointers do not overlap.
--
-- Not modelled: the BLAS that runs a task is no code of this repository; it is the parameter
-- `Kernels`, with the effect that the BLAS documents and only for legal arguments. Tasks run in the
-- order of their insertion: the runtime is taken to keep their dependencies, which Dependencies shows
-- for the accesses to one data, but not for a whole graph of tasks. Each call on a queue, a heap, a
-- stream or a handle is one step; the interleavings of several threads, what the operating system and the devices
-- do, the choice of a worker, the automatic mapping of tiles (xkblas_auto_map) and their distribution, the transfers between
-- address spaces, the gemmt of MKL that a CPU task calls where it is there, the math mode of a task, messages of kaapi_error and event tracing are left out.
pub mod Base
pub mod Scalar
pub mod Blas
pub mod Kaapi
