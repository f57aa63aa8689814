-- ===== src/Lib.antt =====
-- nemo-rl: the parts of the training library that decide which sequences share a bin, how
-- tokens are laid out and batches cut up, which trajectories a training step gets and which weights a
-- generation is for, how the weights reach the generation workers, how rollouts go turn by turn,
-- which checkpoints are kept and when to save one, and how the sliding puzzle plays.
--
-- Sequence packing, nemo_rl/data/packing/algorithms.py:
--   Packing/Packer         `SequencePacker`: the checks of `__init__`, the validation of lengths;
--                          the predicate that bins are a packing of the sequences
--   Packing/Concatenative  `ConcatenativePacker._pack_implementation`
--   Packing/FirstFit       `FirstFitPacker`, `FirstFitDecreasingPacker`, `FirstFitShufflePacker`
--   Packing/Modified       `ModifiedFirstFitDecreasingPacker`, its five phases
--   Packing/Adjust         `SequencePacker._adjust_bin_count`
--   Packing/Pack           `get_packer` and `SequencePacker.pack`, which compose the others
-- A sequence length is a natural number. The comparisons with a half, a third and a sixth of the
-- capacity are multiplied out, which is what the floats of the source compute below 2 ^ 53. What
-- `random.shuffle` does is an argument that keeps the items. A bin is a list of indices, as in the
-- source. The `while` loop of the fourth phase runs on fuel, the number of items that are left: an
-- iteration that goes on takes one. The metrics, which `pack` only feeds, are not modelled.
--
-- Asynchronous training, nemo_rl/algorithms/async_utils.py:
--   Async/Replay     `ReplayBuffer`: push, sample, size, clear, on its three parallel lists
--   Async/Replay/Queue  any sequence of calls on it, and on one list of entries
--   Async/Collector  `AsyncTrajectoryCollector`: the reservations, the weight version, the events
--   Async/System     collector, worker threads, buffer and trainer as a step relation
-- Each method that holds a lock is one function of the state. In `Async/System` a step is what one
-- thread does between two waits, with the values it read earlier as arguments, and the steps come in
-- any order; a worker may deliver any trajectory, so a rollout is not modelled. A weight version is a
-- natural number, and `none` is the -1 that the buffer's last target starts with. The age of a batch
-- is its total age and its number of groups, not their quotient as a float. The loop over the
-- dataloader, the waiting for threads and the calls of the policy are not modelled.
--
-- Sliding puzzle, nemo_rl/environments/games/sliding_puzzle.py:
--   Games/Board     grids as lists of rows, read and written by `grid[r][c]`
--   Games/Puzzle    `SlidingPuzzleGameLogic.generate` and the moves of `step`
--   Games/Commands  the text commands of `SlidingPuzzleGameLogic.step`
--   Games/Turns     `SlidingPuzzleRunner._parse_action` and `process_turn`
-- What `random.choice` returns is an argument, one for each shuffle move. Texts are ASCII. A response
-- is a value that names its message; `render` and `init`, which only make text, are not modelled.
--
-- Checkpoints, nemo_rl/utils/checkpoint.py:
--   Checkpoint/Directory  the checkpoint directory as an association list, with `os.rename` and
--                         `shutil.rmtree`
--   Checkpoint/Manager    `CheckpointManager` and `_load_checkpoint_history`
-- A directory is one of `step_n`, `tmp_step_n` and `old_step_n` with its training info, if it has any.
-- The order of the metrics is an argument; a metric is not infinite. What the algorithm saves beside the
-- info is not modelled.
--
-- Batches, nemo_rl/distributed/batched_data_dict.py:
--   Batching/Batch   `BatchedDataDict`: the batch size, `select_indices`, `slice`, `chunk`,
--                    `reorder_data`
--   Batching/Pieces  `from_batches`, `repeat_interleave`, `truncate_tensors`, `get_batch` and the
--                    microbatch iterators, as the lists of what they yield
--   Batching/Shards  `shard_by_batch_size`, whole and with dynamic batching
--   Batching/Packed  `shard_by_batch_size` with sequence packing; it calls Packing/Pack
-- A column is the list of what stands at the places of the batch dimension, with its kind. What torch
-- does with a row (its length, padding, cutting) is the parameter `Rows`; `item` reads a length from a
-- row, and `shape1` is the width of a tensor. Indices are natural numbers, so that a negative index,
-- which counts from the end, is not modelled. Devices, process groups and multimodal tensors are not
-- modelled.
--
-- Rollouts, nemo_rl/experience/rollouts.py:
--   Rollouts/Feedback      `calculate_rewards` with `EnvironmentReturn` of
--                          nemo_rl/environments/interfaces.py
--   Rollouts/Sample        one sample of a rollout, its response and its observation
--   Rollouts/MultiTurn     `run_multi_turn_rollout` with `generate_responses`
--   Rollouts/SingleSample  `run_sample_multi_turn_rollout` and `run_async_multi_turn_rollout`
-- The policy, the tokenizer, the environments and the sum of rewards are parameters (`Setup`). The
-- tensors of the batch loop, one entry per sample, are fields of a sample; the loop's range of turns is
-- the fuel. A prompt is passed without its padding. The rounding of rewards, log probabilities,
-- multimodal data and the averages of the metrics are not modelled; the asynchronous rollouts of the
-- samples share nothing, so that their order does not matter.
--
-- Training, nemo_rl/algorithms/grpo.py:
--   Training/Sampling  `dynamic_sampling`, and of the training loop the batches up to a complete one
-- A sample is abstract, with the test whether its group's deviation is zero, its reward after scaling
-- and shaping, and whether its loss multiplier is 0 and not 1; the generated batches are a list. The
-- monitor that asserts on masks and rewards belongs to the loop, and the environment may disable it; its
-- comparisons of averages are multiplied out. The rest of the training loop is not modelled.
--
-- Handing the weights to the generation workers:
--   Transfer/Stream    `calculate_aligned_size`, `stream_weights_via_ipc_zmq_impl`, as the list of the
--                      sender's actions; nemo_rl/models/policy/utils.py
--   Transfer/Receive   what `update_weights_via_ipc_zmq` reads from a payload;
--                      nemo_rl/models/generation/vllm/vllm_backend.py
--   Transfer/Socket    both at work: the shared buffers, the messages, the acknowledgements
--   Transfer/Broadcast, Transfer/Consumer  `packed_broadcast_producer` and
--                      `packed_broadcast_consumer`; nemo_rl/utils/packed_tensor.py
-- A tensor is its bytes. In `Transfer/Socket` a turn is one copy, send or receive of the sender, or one
-- of the receiver's steps: taking a message, reading the buffer as it then is, acknowledging. Errors
-- of zmq are not modelled, and loading weights into a model adds them to a list. Between producer and
-- consumer `group` is a parameter. Their loops run on fuel, one more than the number of tensors.
--
-- The layout of tokens:
--   Layout/Context  `_get_tokens_on_this_cp_rank` and `AllGatherCPTensor.forward`;
--                   nemo_rl/distributed/model_utils.py
--   Layout/Rows     `group_and_cat_tensors`, `pack_sequences` and `unpack_tensor`;
--                   nemo_rl/models/huggingface/common.py
-- A sequence is a list of tokens along `seq_dim`; a tensor with three dimensions is a list of
-- rows of vectors, where the type of a vector is an argument. `unpack_tensor` is modelled twice, as
-- `unpack_vectors` for three dimensions and as `unpack_matrix` for two, where it pads rows and raises
-- unless the lengths are equal. The result of `all_gather` is the list of what the ranks gave.
--
-- Smaller parts:
--   Timing/Timeout    `TimeoutChecker`; nemo_rl/utils/timer.py
--   Timing/Timer      `Timer`: start, stop, get_elapsed, get_latest_elapsed, reset, on dictionaries
--                     (Timing/Dict); Timing/Timer/Alone has a timer for one label, Timing/Timer/Metrics
--                     `reduce` and `get_timing_metrics`, where NumPy's reductions are an argument. The
--                     context manager `time` is not modelled
--   Batching/Workers  `chunk_list_to_workers`; nemo_rl/environments/utils.py
-- A time is a natural number of ticks of a clock that does not go back. The slices of a list are taken
-- on fuel, its length.
--
-- Shared: Prelude, with lists, sums over lists, sorting, results and errors, and text as code
-- points. A Python exception is a value of `Exception` in a `Result`; `SameItems` says that two
-- lists have the same items as often, since every weight of items has the same sum over them.
pub mod Prelude
pub mod Layout
pub mod Packing
pub mod Async
pub mod Games
pub mod Checkpoint
pub mod Batching
pub mod Rollouts
pub mod Timing
pub mod Training
pub mod Transfer
