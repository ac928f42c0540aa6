-- ===== src/Lib.antt =====
-- Verification library of the inference engine: the CPU side.
--
-- Requests go to the continuous-batching engine. In every step it admits waiting requests while the
-- block manager has room, assembles a batch under the budget of free blocks, preempts where nothing
-- fits, runs the batched forward pass and samples a token for each sequence. The block manager pages
-- the keys and values of all sequences over one pool of blocks, whose holders the block allocator
-- counts; blocks of common prompts are cached, shared and evicted. A sequence on its own may use a
-- contiguous or a paged cache, and speculative decoding drives a target model with a draft.
--
-- Files, with the code that each models:
--   Base            lists, maps, counts and results over native numbers
--   Allocator       include/engine/block_allocator.hpp; Allocator/Invariant and Allocator/Ops prove
--                   what each operation does to the counts
--   Manager         include/engine/block_manager.hpp, src/kvcache/block_manager.cpp: Manager/State the
--                   sizes, Manager/Hash hash_block, Manager/Prefix the prefix cache, Manager/Evict
--                   evict_lru, Manager/Pool reserve, commit and free, Manager/Store write and gather;
--                   Manager/Owned proves that every operation keeps the counts right
--   Tensor          include/engine/tensor.hpp; Tensor/Shards is src/engine/tensor_parallel.cpp
--   Cache           include/engine/kv_cache.hpp (Cache/Contiguous), include/engine/paged_kv_cache.hpp
--                   and src/kvcache/paged_kv_cache.cpp (Cache/Paged), and the refinement of the one by
--                   the other (Cache/Refines)
--   Layers          src/model/nn.cpp, src/core/matmul.cpp: a layer to a file; Layers/Floats is the
--                   arithmetic that they use, and Layers/Shapes runs them on matching shapes
--   Quant           include/engine/quant.hpp, src/quant/quant.cpp
--   Weights         the files of a model: Weights/Formats is include/engine/dtype.hpp, Weights/Reader
--                   src/model/safetensors.cpp, Weights/Config src/model/model_config.cpp
--   Network         src/model/model.cpp: Network/State the weights by name, Network/Block the body of
--                   the layer loops, Network/Forward forward, forward_with_cache and forward_paged,
--                   Network/Batched the layers of forward_batch, Network/Quantize quantize;
--                   Network/Fits is a model whose weights have the shapes of its sizes,
--                   Network/Both and Network/Simulates compare two runs, Network/Chunks the run over
--                   a prompt and those over its two parts (with Layers/Joined for the layers)
--   Batch           src/model/model.cpp, forward_batch: what it does to the block tables
--   Engine          include/engine/engine.hpp, src/engine/engine.cpp: Engine/State the requests and
--                   queues, Engine/Admit, Engine/Assemble, Engine/Preempt and Engine/Sample the parts
--                   of step, Engine/Step step and generate; Engine/Sound is the scheduler's
--                   invariant and that every part of a step keeps it
--   Speculative     src/engine/speculative.cpp; Speculative/Causal says what is asked of the target
--   Sampler         src/sampler/sampler.cpp: Sampler/Argmax the greedy choice, Sampler/Sample the rest
--
-- How the code is read. A float is a value of any type, so that nothing is said of rounding; a
-- comparison of floats, the arithmetic of floats and doubles, and Eigen's product of matrices are
-- arguments; so are the JSON library and the file system. Where two passes are compared, the product of
-- matrices is asked to work row by row: then the statements hold of the values up to the order in
-- which it sums. Sizes, block numbers and token ids are natural numbers, signed
-- arguments are integers where the code tests their sign, a reference count is an int32_t whose overflow
-- is an error, and the hash wraps at 64 bits. An exception is an error of the result type by its kind;
-- a read outside a vector is the error `undefined`, and so are a division by zero and a call of std::sort
-- whose comparison is no strict weak order of the values. A hash map is an association list, in any order.
-- A pointer to the blocks of a sequence is a key of a heap.
--
-- Fuel. Speculative decoding has max_tokens rounds and one last test of fuel, and is proved to end
-- within them. The retries of a step have one turn for each running sequence and one more. generate
-- has no bound in the code, so its fuel is an argument.
--
-- The loop that normalises a half precision number has ten rounds, one for each bit of its mantissa.
--
-- Not modelled: Model::from_pretrained, which opens two files and calls the readers above; negative
-- sizes in a configuration that a model is run with; the CUDA backend, whose kernels and driver calls
-- are device code; the Python bindings and the benchmarks.
pub mod Base
pub mod Allocator
pub mod Manager
pub mod Tensor
pub mod Sampler
pub mod Speculative
pub mod Batch
pub mod Engine
pub mod Cache
pub mod Layers
pub mod Quant
pub mod Weights
pub mod Network
