-- ===== src/Lib.antt =====
-- Verification of superl8-serve, an OpenAI-compatible inference server for language models.
--
-- A request becomes a Sequence (superl8serve/engine/sequence.py). The Scheduler
-- (superl8serve/engine/scheduler.py) admits waiting sequences into the slots of a KV cache, lets the
-- model runner prefill or decode them, and frees the slots of those that finish. PagedKVCache
-- (superl8serve/engine/kv_cache.py) keeps the slots, the blocks with their reference counts, and a
-- radix tree of shared prefixes; MLALatentCache (superl8serve/models/cache.py) keeps slots alone.
-- Pipeline stages compress what they send with the rANS coder of superl8serve/dist/entropy.py.
--
-- The files:
--   Prelude                tests on numbers, lists over the native numbers, counting
--   Kv/Dict, Kv/Trie       Python dictionaries, and the prefix tree as first child and next sibling
--   Kv/Pool                PagedKVCache without its tensors, one function for each method; its
--                          children hold the invariant and what each call keeps, with
--                          KVEviction.compact in Kv/Pool/Compact
--   Engine/Sequence        Sequence, its finish reasons and its set of repeated tokens
--   Engine/Cache           what the scheduler asks of a cache (operations and laws), provided by
--                          PagedKVCache in Cache/Paged and by MLALatentCache in Cache/Latent
--   Engine/Scheduler       the Scheduler over any such cache: add, cancel, _preempt_one, schedule,
--                          postprocess; its children prove what they do to queues and slots
--   Engine/Drafters        the n-gram drafter and the cascade of superl8serve/engine/drafters.py
--   Engine/Speculative     the host side of a speculative step of superl8serve/engine/model_runner.py;
--                          its children compare it with plain greedy decoding
--   Engine/Structured      the grammar of a request (superl8serve/structured.py), the GrammarDrafter of
--                          superl8serve/engine/drafters.py, and the check of drafts on a constrained
--                          row; the matcher of xgrammar is an argument
--   Engine/Recurrent       the state of linear attention (RecurrentStateCache of
--                          superl8serve/models/cache.py), and its commit after a speculative step
--   Engine/Graphs          which captured graph of superl8serve/engine/cuda_graph.py serves a step
--   Engine/Loop            the requests and the loop of LLMEngine (superl8serve/engine/llm_engine.py)
--                          over the Scheduler and any model runner; Loop/Requests says what add_request
--                          and cancel do
--   Dist/Entropy           the rANS coder of superl8serve/dist/entropy.py and the table that it makes of
--                          the counts, with their round trip; `np.argsort` is an argument
--   Dist/Pipeline          how make_pipeline of superl8serve/dist/pipeline.py divides the layers
--   Dist/PeerRoutes        which pairs of GPUs may copy directly (superl8serve/dist/peer_routes.py)
--   Api/Files              the file store of superl8serve/api/batches.py
--   Api/Worker             the delivery of tokens by the worker of superl8serve/api/runtime.py
--   Api/Reasoning          superl8serve/api/reasoning.py, which splits reasoning from the answer
--   Config                 the attention kinds of the layers in superl8serve/models/config.py
--   Metrics                the counters and windows of superl8serve/metrics.py
--   Scheduling             the planner of superl8serve/scheduling.py
-- A method has the name that it has in the source, without a leading underscore; an object's state
-- is a record that the method takes and returns. A Python list that is used as a stack, such as a
-- free list or a byte buffer, is kept from its end.
--
-- Fuel and bounds: the `while` of _enforce_prefix_budget has one round more than there are entries,
-- each of which evicts one. The outer `while` of schedule recurses on the preemptions that are left
-- of max_num_seqs. The while of generate runs on fuel, of which nothing is shown: whether it ends
-- rests on the model runner. The renormalisation of the encoder has five rounds, since a state is below 2 ** 32. The loop that takes slots back in _normalize_freqs has
-- a round of the present symbols for each slot that is too many, and each round takes one. The
-- `while` of forced_run has a round for each token that is asked for, since a round that goes on adds
-- one. Other loops are recursion on the lists that they walk. Counts and ids are unbounded, as
-- Python's integers are.
--
-- Not modelled: the tensors (keys, values, hidden states, images, weights) and the kernels that
-- read them, the layers and models, what a CUDA graph captures, the model conversion, training and
-- the HTTP server. The target model of a speculative step is a function from the tokens so far to
-- the next one, and the model runner of the loop a record of calls of which nothing is assumed: its
-- forwards are tensor code. Times are numbers of ticks, and quotients pairs. The compilation of grammars, images and the diffusion decoder are left out.
mod Prelude
pub mod Kv
pub mod Engine
pub mod Dist
pub mod Api
pub mod Config
pub mod Metrics
pub mod Scheduling
