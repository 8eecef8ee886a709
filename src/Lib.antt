-- ===== src/Lib.antt =====
-- TokenSim, a discrete-event simulator of LLM serving: the parts that decide which tokens are computed
-- and where their KV blocks are.
--
-- A request (Request, TokenSim/llm/llm_request.py) advances by steps, is admitted, recomputed after a
-- preemption, and cancelled by an agreement of the workers that hold it. The paged scheduler (Scheduler,
-- TokenSim/llm/paged_tokens.py, paged_scheduling.py, llm_scheduler.py) spends a token budget on the
-- running requests and preempts the youngest where the block manager has no slot. The block manager
-- (Block.Manager, TokenSim/block/block_manager.py) keeps the blocks of each request in a table
-- (Block.Table, block_table.py), takes and returns them through one allocator per device
-- (Block.Allocator), whose pool (Block.Pool, block_pool.py) builds blocks when first used and queues the
-- free ones (Block.FreeQueue, free_queue.py). A shared cache manager (Block.CacheManager,
-- kv_cache_manager.py) finds blocks again by prefix keys, which Block.PrefixCache (prefix_cache.py)
-- builds through a cache of hash chains. Forward (TokenSim/llm/forward.py) has the tensor shapes of a
-- step, Placement (TokenSim/moe/placement.py) the assignment of experts and layers to ranks, and Parallel
-- (TokenSim/config/parallel_config.py) the ranks of a deployment and its expert-parallel groups. Routing
-- (TokenSim/placement/consistent_hash.py) picks the worker of a session by hashing its key on a ring.
-- Storage holds KV outside the devices: the Mooncake store (Storage.Mooncake,
-- TokenSim/mooncake/store.py), its offloading tier (Storage.Offload, TokenSim/mooncake/ssd.py) and the pages
-- of a native store (Storage.PageStore, TokenSim/kv_transfer/native_storage.py). Af
-- (TokenSim/af) reserves KV bytes for the cohorts of attention-FFN disaggregation (Af.Resident,
-- runtime/admission.py) and holds its peers together stage by stage (Af.Rendezvous, execution/rendezvous.py).
--
-- Operations stand in the file of their part, and in Request/Steps, Scheduler/{Begin,Running,Batch,Admission},
-- Routing/{Hash,Ring,Sessions,Fixed}, Storage/Mooncake/{Reads,Writes} and
-- Af/{Plan,Resident,Rendezvous}. The other files below a part hold proofs, and Examples the concrete
-- inputs.
--
-- How the code is read:
-- * A block object is a reference with the fields that never change (`PhysicalTokenBlock`); the other
--   fields are cells of a memory found by the object's identity, so that two holders of one block see
--   each other's writes. A request is a value that its operations return changed.
-- * A method that may raise returns an outcome beside the state, since what was written before a raise
--   stays written (`Outcome`, Errors). Python's `except` blocks are written out.
-- * `heapq` is a list in the order of its documented comparison, with the insertion where `heappush`
--   would let the element come out. Dictionaries are association lists; an `OrderedDict` keeps its
--   order.
-- * Hash functions, `json.dumps` and `str` are the fields of `Hashes`, arbitrary functions. The draws of
--   TokenSim/llm/speculative_acceptance.py compare floating-point numbers and are the argument
--   `accepted_by` of the scheduler.
-- * Numbers are natural numbers, block sizes and group sizes are positive where they divide, and times
--   are whole ticks of one clock. A subtraction that Python bounds by 0 stops at 0 here; a guard
--   precedes each other one.
-- * The binary search of `_common_prefix` has the length of its interval as fuel; a round leaves at most
--   half of the interval. The loop over running requests has one round for each request that was
--   running; a round takes at least one request off the queue.
-- * The loop that frees memory for the Mooncake store has the length of its recency list as fuel, and the
--   loop that makes room for a page the number of pages; a round takes an entry off the list or stops. The
--   latencies of a storage medium are an argument.
-- * The admission of waiting requests is over a uniform cache and a connector that matches nothing. The bytes
--   of a virtual node's label and of a session's key are arguments of the router.
-- * Hashes wrap at 64 bits, as the code masks them. The list of hashes that `fbi_hash` grows is a function of
--   the index.
--
-- Not modelled: grouped (hybrid) caches, asynchronous KV connectors, the worker pools of
-- TokenSim/placement/policies.py, the planning and execution of attention-FFN disaggregation beside
-- its KV residence and its rendezvous, the simulation processes of the engine, floating-point latency and
-- cost models, routing statistics, and the reading of configurations, workloads and hardware, with the reports.
pub mod Prelude
pub mod Errors
pub mod Block
pub mod Request
pub mod Scheduler
pub mod Parallel
pub mod Storage
pub mod Forward
pub mod Placement
pub mod Routing
pub mod Af
mod Examples
