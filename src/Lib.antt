-- ===== src/Lib.antt =====
-- Boost.Signals2 (include/boost/signals2): signals that call the slots connected to them, safe under
-- threads, with objects that slots track and connections that outlive neither.
--
-- How the parts work together. A signal keeps a shared state: a list of connection bodies in groups
-- and a combiner. Connecting a slot makes a body, which the list, the connection handles and the
-- running calls share; a handle or a block refers to it weakly. A call copies the pointer to the state
-- under the mutex, and its combiner runs an iterator that locks each slot's tracked objects, calls it
-- and counts the slots that are gone. Whoever changes the list copies it first if a call reads it,
-- and cleans up bodies that are disconnected. What a lock releases is garbage that is destroyed after
-- the unlock, and is kept in a small buffer with room on the stack.
--
-- Buffer (detail/auto_buffer.hpp): a buffer is its objects, its capacity and where its memory is.
--   Each operation has the source's name; `none` is a failed BOOST_ASSERT. The stack's capacity N is
--   an argument. size_type has 64 bits, unsigned 32: where the source would wrap, the remainder is
--   written. The overloads by type traits are one definition, but std::copy may move raw memory; an object made without a value is an
--   argument. Children: Copy (std::copy, std::fill, assign_impl), Growth (constructors, reserve,
--   push_back, shrink_to_fit), Insert, Whole (assignment, swap, comparison), and Laws, Erase,
--   Inserted and Swapped with the proofs.
-- Groups (detail/slot_groups.hpp): grouped_list with the std::list as nodes of an identity and a
--   value, and the std::map as a sorted list of entries. Children: Containers (what the source uses of
--   those two), Duplicate (the copy constructor), Segments (the abstract view), and the proofs, which
--   Refine and Copied put together.
-- Slot (slot_base.hpp, detail/slot_template.hpp, detail/replace_slot_function.hpp): slots, and the
--   objects that they track, which may lose their owners between two steps of a lock. Visit
--   (detail/tracked_objects_visitor.hpp): what a slot finds to track in its function.
-- Connection (connection.hpp): connection_body with its count; Handle: connection and
--   scoped_connection over a store of bodies, with Handle/Scoped about ownership; Block
--   (shared_connection_block.hpp), with Effect about what is blocked.
-- Invocation (detail/slot_call_iterator.hpp): the iterator and its cache; Combiner: dereferencing
--   (detail/variadic_slot_invoker.hpp), optional_last_value.hpp and last_value.hpp. A combiner's loop
--   has one round of fuel more than the list has slots, and each round moves the iterator on.
--   Abstract: a call told without iterators. The proofs: Counting (the use of the active slot),
--   Callee, Live, Steps and Runs (where the iterator stops), Called (one slot), Loop and Whole.
-- Signal (detail/signal_template.hpp): signal_impl, with the shared states, lists and combiners under
--   their addresses; Cleanup, Connect, Disconnect, Query and Emit are its operations, and
--   Stored, Disconnected, Grouped, Picked, Counted and Sharing hold the proofs. Consistent is what a
--   signal keeps between its operations, with Keyed and Placed for the bodies' group keys; Unmoved,
--   Visited, Sweep, Swept, Cleaned and Owned are about clean-ups, Connected and Outer about
--   connect, and Begun, Ended and Completed about a whole call. Extended is connect_extended, with
--   its proofs in Bound. Owner has the classes signal and weak_signal over a heap of
--   implementations, and Moved the proofs about a move. Schedule has the sequences of what happens
--   to a signal while a slot runs, with Ready and Survived for the proofs.
-- Deconstruct (deconstruct.hpp, deconstruct_ptr.hpp): the factories that postconstruct and predestruct,
--   as lists of the user code that they run; Lifetime and Pointers hold the proofs.
-- Foreign (detail/foreign_ptr.hpp): the adapters of another library's pointers; Wrapped has the
--   programs that use them and the proofs.
-- Base holds the shared names, tests and lemmas; Tests runs the theorems at concrete inputs.
--
-- boost::function, boost::variant, the shared and weak pointers, the mutexes and the C++ library are
-- not modelled but for what the code relies on: a function's answers are arguments, a pointer is the
-- identity of what it points to, and each function runs with the mutex held that the source takes.
-- Left out are the results of a call whose slots change the signal, exceptions from copying objects,
-- and the macros that write out argument lists.
pub mod Base
pub mod Buffer
pub mod Groups
pub mod Slot
pub mod Connection
pub mod Invocation
pub mod Signal
pub mod Deconstruct
pub mod Foreign
pub mod Tests
