-- ===== src/Lib.antt =====
-- The request scheduler of LLM-SteadyInfer and the memory management below it.
--
-- The program serves language models. Its scheduler keeps a queue of waiting requests and a set of
-- running sequences. In each step it admits requests, builds a batch of decode rows and prefill rows,
-- runs the model on it, and retires what is done. The keys and values of a sequence live in blocks of
-- a fixed pool: a row of the block table lists a sequence's blocks, blocks are counted by reference,
-- and a prefix cache pins the blocks of common prompt prefixes so that later requests can mount them.
-- When the pool is short, blocks come back from the cache (the reclaim hook) or from a preempted
-- sequence.
--
-- Files and code (paths from the repository's root):
--
--   Base                 names of the libraries, tests, lists, and programs that may abort
--   BlockAllocator       src/source/scheduler/block_allocator.cpp, src/include/scheduler/block_allocator.h
--     Rows               rows of the block table; mount_front is the copy_backward of reserve_shared_prefix
--     Invariant          the three states of a block, and the reference counts
--     Growth             the loop that pops free blocks
--     Reclaim            reclaim_for, the contract of its hook, and append_blocks
--     Admission          allocate_blocks
--     Sharing            mark_cached, evict_cached, reserve_shared_prefix
--     Release            free_blocks_from, free_all (Dropping: drop_ref; Walking: free_walk)
--     Gain               reclaimable_blocks_from; Shrink: what a cut means for the other rows
--     SelfCheck          invariant_holds, and the constructor
--   PrefixCache          src/source/scheduler/prefix_cache.cpp, src/include/scheduler/prefix_cache.h
--     Hash               block_hash
--     Eviction           evict_lru, evict (Walking: the walk of evict_lru)
--     Lookup             lookup
--     Chain              the chained hashes of a prompt
--     Insertion          insert_committed (Storing: one entry)
--   Sequence             src/include/scheduler/sequence.h
--   DevicePool           src/source/base/alloc_cu.cpp, src/include/base/alloc.h: CUDADeviceAllocator, on one pool
--     Weigh              sums over lists and maps
--     Measure            quantities that add up when a range of addresses is cut
--     Driver             the CUDA runtime as a parameter, its laws, and DeviceGuard
--     Locked             allocate_locked, free_regions_locked, idle_flush_threshold
--     Allocator          the public operations, over the pools of all devices
--     Fit                the search for the best fit, and round_up
--     Neighbour, Merge   merge_idle_neighbours_locked; MergeAll: merge_all_idle_locked
--     Invariant          the blocks of a pool tile its regions, and its counters are right
--     HandOut            a hit of allocate_locked; Growing: a miss; Allocation: the whole
--     Reclaim            free_regions_locked (Drained, Apart: what is left of the idle blocks)
--     Release            release_locked
--     Across, Operations, Waterline, ReleaseAny, FreeIdle, Foreign, Overlap
--                        the pools of all devices, and the public operations on them
--     Bump               a driver that keeps the laws, for the runs
--   KvManager            src/source/scheduler/kv_manager.cpp, src/include/scheduler/kv_manager.h
--   Scheduler            src/source/scheduler/scheduler.cpp, src/include/scheduler/scheduler.h: step
--     State              the state, add_request, retire_finished
--     Preemption         try_preempt_for, truncate_sequence, flush_preempted, ensure_blocks_for
--                        (Cutting, Freeing: what a preemption frees;
--                        OneBlock, Rounds, Ensuring: the loop of ensure_blocks_for)
--     Batch              build_batch_rows
--     Admission          try_admit_sequences
--     Execution          execute_batch, record_committed_prefill, force_finish_all, update_sequences
--                        (RowOrder, StagedRows, Staging: what is handed to the model; Done, Updating: who is retired)
--   Bf16                 src/include/base/bf16_utils.h
--   Fp16                 src/source/model/safetensors_reader.cpp: fp16_to_fp32 (Normalizing: its loop)
--   The modules named Samples and Examples hold test data, runs, and the theorems at concrete inputs.
--
-- Functions and fields keep their names; a trailing underscore is dropped. A struct is a record, an
-- enum a data type, a vector a list. The fixed-size arrays of the allocator, indexed by block or by
-- row, are functions. The free list's head is the back of its vector. An int in which -1 means nothing
-- is an Option, or has Option as the result. The hash map and the LRU list of the cache are one list,
-- the most recent entry first. A pointer to a running sequence is its index, since the running set does
-- not change while a batch is built and run. An outer `none` is an aborted process: a failed CHECK, a
-- LOG(FATAL), or an access out of range. `Returns m P` says that `m` does not abort and its result
-- satisfies `P`.
--
-- Numbers are natural numbers. Counts and positions are bounded by the sizes of the pool and the
-- prompt, so an int does not overflow at realistic sizes; the 64-bit arithmetic of block_hash wraps as
-- in the code. Where the code subtracts, the guard before it, or a test for a result that is not
-- positive, makes the natural subtraction agree.
--
-- The device memory pool computes in size_t, which wraps around as in the code; its pointers do not
-- wrap, since C++ has no meaning for one that does. The CUDA runtime is a record of functions over a
-- type of its own states. `Lawful` lists what the pool relies on: allocations do not overlap, and only
-- cudaMalloc and cudaFree change them.
--
-- Every loop but four is a recursion on a list or a count. The two loops that merge idle blocks run on
-- fuel: each pass but the last takes a block away, so that one more than the number of blocks is enough.
-- The loop of fp16_to_fp32 has fuel 10, one round for each bit of the mantissa. The loop of ensure_blocks_for runs on fuel:
-- each of its rounds adds a block or preempts, and a round that preempts is followed by one that adds,
-- so that twice the number of blocks wanted, and one for the last test, is enough.
--
-- The build is the default one, with USE_PAGED_ATTENTION. The model is a parameter of step: the status
-- of a forward pass, the sampled tokens and the end-of-text test. Whether the device grants memory is a
-- parameter of KvManager.construct. The environment variables are arguments, as strtol reads them. The
-- debug checks of the device memory pool, which a build with NDEBUG leaves out, are included.
--
-- Not modelled: time stamps, logging and statistics of time; the scheduler's constructor and its
-- environment variables; the contents of tensors, the kernels, the operators and the forward passes,
-- which are floating-point code; the files and headers of weights, tokenizer, sampler; the allocators of host memory; benchmarks,
-- demo and tools; the generated Unicode tables, and the copy of a third-party hash map.

pub mod Base
pub mod Bf16
pub mod Fp16
pub mod BlockAllocator
pub mod PrefixCache
pub mod Sequence
pub mod DevicePool
pub mod KvManager
pub mod Scheduler
