-- ===== src/Lib.antt =====
-- Verification of csapex, a framework for dataflow graphs. Paths are those of the repository,
-- below `src/`.
--
-- The parts, and how they interact. A graph joins nodes by connections, from outputs to inputs. A
-- node that has run commits a token at each output; its output transition publishes the tokens on
-- the connections; the input transition of a receiving node hands them to the node's inputs, and
-- acknowledges them when that node has run, which frees the outputs for the next token. The user's
-- edits of the graph are commands, which a dispatcher executes, undoes and redoes.
--
-- Command: csapex_core/src/command/dispatcher.cpp (`CommandDispatcher`), command.cpp (`Command`) and
--   meta.cpp (`Meta`). A command is a record of the functions that its subclass gives (`doExecute`,
--   `doUndo`, `doRedo`, each on the state of the program, with the success reported) and of the two
--   savepoint marks; the dispatcher is the record of its stacks, its queue, its flag and its
--   signals. `do_execute`, `undo`, `redo`, `reset_dirty_point` and the others are the methods of
--   the same names. A `World` is the state that commands change, with the static list `undo_later`.
--   `meta` is a group as a command, and `Nested` its list of commands, which is locked once it was executed.
--   Command.Versions is what the dispatcher promises: a list of versions, the one that is shown and
--   the one saved last. Moves, Saves and Savepoints prove that the dispatcher refines it; History
--   is undo and redo of exact commands, Meta groups of commands, Outcomes single operations.
-- Flow: how tokens travel. Flow.Net is one store of all objects, which refer to each other by
--   numbers, since the code's objects call each other through pointers. Flow.Token: model/token.cpp.
--   Flow.Transition, OutputTransition, InputTransition: msg/transition.cpp, output_transition.cpp,
--   input_transition.cpp. Flow.Acknowledge and Delivery: model/connection.cpp with the parts of
--   msg/output.cpp and msg/input.cpp that it calls. Flow.Output: msg/output.cpp, static_output.cpp
--   (all under csapex_core/src). A method that may fail an assertion, or throw, returns a `Result`.
--   Acknowledged, Processed, Release, Counting, Tuned, Protocol, Publishing, Published, Forwarding, Marking and
--   Forwarded prove properties.
-- Graph: csapex_core/src/model/graph/graph_impl.cpp (`GraphImplementation`) and vertex.cpp (`Vertex`):
--   nodes and edges, and the connected components. The two loops of `buildConnectedComponents` are
--   `label` and `search`, on fuel: a round of the outer one marks a vertex, and a round of the inner one
--   takes a vertex from a queue that grows only by vertices without a component, so the number of
--   vertices, and one more inside, is enough (Graph.Fuel). Search, Erase, Components and Labels keep
--   the invariant, Connectivity concludes, Edges is about adding edges, and
--   Needs about the vertices that need messages. Graph.Depths is `calculateDepths` before it looks for the
--   counterparts of joining vertices. Its loops run on fuel too: those that mark a vertex once take a round for each vertex,
--   and the one that lowers depths, of n vertices, at most n·(n+1)+1 (Relax, Settle and Populate), since a depth is
--   at most the number of vertices. Spread and Marks are about what leads to essential vertices, Totals, Relax,
--   Settle, Populate and Streams about the loops, and Distance about the depths. The largest `int` is a parameter.
--   Graph.Counterpart is the rest of it, whose loop takes a vertex once; `std::sort`, which may order vertices of
--   one depth in any way, is a parameter. Trace and Classified are about it.
--   Graph.Deletion is a graph with its connections of messages, and deleting them and nodes; Linked is the
--   invariant that ties both, Growth, Removal, Cutting and Cut are the operations, Built any sequence of them,
--   and Relisted is about disabled connections. Analysis is `analyzeGraph`, Analyzed is about it, and
--   Clear is `clear`, less the names that the provider forgets. Connections of events and slots, which change no vertex,
--   are left out.
-- Uuid: csapex_util/src/uuid.cpp, hierarchical names. Texts are lists of character codes. The loop of the
--   constructor from a text does not end for every text, so `split_from` runs on fuel, and `none` is a
--   run that has not ended; Uuid.Naming proves for which texts it ends. Uuid.Paths is about names
--   relative to others. Uuid.Provider: csapex_util/src/uuid_provider.cpp, a provider with its maps as
--   association lists; its loops run on fuel, and Fresh proves that one round more than there are names
--   taken is enough. Decimal, Generate and Taken are about its names. A counter does not wrap.
-- Serialization: csapex_core/src/serialization/serialization_buffer.cpp with its header
--   (csapex_core/include/csapex/serialization) and io/std_io: the bytes of integers, strings, pairs and
--   vectors. An integer is its bit pattern, so signed and unsigned ones are written alike. What C++ does
--   not define, such as a shift by the width of an `int`, counts as failed. Serialization.Codec is the
--   interface that a container has to its elements; Containers proves it faithful.
-- Scheduling: csapex_core/src/scheduling/thread_group.cpp (`ThreadGroup`), thread_pool.cpp (`ThreadPool`) and
--   csapex_core/src/model/node_runner.cpp (`NodeRunner`). The fields of all tasks, groups and runners are
--   functions of their addresses, in one `SchedulingState`; a name is a number that is only compared, and the
--   numbers of groups are natural. Queue is the multiset of tasks, Runner how a group takes a runner over,
--   Pool the pool's table. Structure, Handover, Membership, Assignment, Upkeep and Requests prove what Serve
--   concludes; Clash, Order, Service, Drain and Transfer are about single operations. `execute_tasks`,
--   the loop that takes tasks from the queue, runs on fuel, a round for each task (Drain). Threads are not modelled:
--   the methods hold their locks, and an operation is a step.
-- Param: csapex_core/src/param/bitset_parameter.cpp (`BitSetParameter`), an `int` whose bits have names. The value
--   is the function of its bits, of which `width` count; it is compared on these alone. Bits is about single
--   masks, Flags about `setBits`, and Stored about loading and what keeps the bits to the names.
-- Base: shared types, lists, results and integers.
--
-- All other loops run over finite lists and are structural recursion.
--
-- Not modelled: the Qt views, the network layer, plugins and the loading of files, whose work is
-- input and output; the timed queue and the stepping of executors, the other parameters, and
-- the cycle of a node that calls the transitions; locks, since each method that is modelled holds its lock throughout; clocks
-- and profiling.

pub mod Base
pub mod Command
pub mod Flow
pub mod Graph
pub mod Param
pub mod Scheduling
pub mod Serialization
pub mod Uuid
