-- ===== src/Lib.antt =====
-- A model of the robot R2DTU: the epistemic planner under Pepper_Planner, the queries and the tracking of
-- objects under include/reasoning and src/reasoning, the executor of the robot's states under src/executor, the
-- script of the operator under src/ocs, and the buffers, messages and channels that all of them talk through.
--
-- The planner (Pepper_Planner/Pepper_Planner). A State is an epistemic model: worlds with the propositions
-- that are true there, designated worlds, and for each agent a list of relations between worlds. An
-- Action is a model of events in the same way. DEL_Operations makes the state after an action
-- (perform_product_update), the state as one agent sees it (perform_perspective_shift), the states that
-- an agent may find itself in (split_into_global_states), and tests whether an action applies
-- (is_action_applicable). Planner::find_policy searches an and-or Graph of states with these: it expands
-- nodes from the frontier, marks nodes as solved or dead, tells their ancestors, and extracts a Policy
-- when the root is solved. DEL_Interface holds a Domain with the current state, and a policy.
--
--   Formula.antt           Formula.cpp, Formula_Component.cpp: arena, builders, evaluation; Formula/Print
--                          the printing
--   World.antt             World.cpp; Common/Sets.antt is its unordered_set
--   State.antt             State.cpp; State/Valid the invariant, State/Visits and State/Search the search
--                          for reachable worlds, State/Edges the relations as a function
--   Action.antt            Action.cpp, Action_Event.cpp. State/Print, Action/Print, Graph/Print and Policy/Print
--                          are to_string and to_graph
--   Operations.antt        DEL_Operations.cpp; Operations/Worlds, Relate, Points and Product the product update,
--                          Shift, Moved and Perspective the perspective shift, Split and Applicable
--   Bisimulation.antt      Bisimulation_Context.cpp, are_states_bisimilar; Bisimulation/Blocks the comparison
--                          of relations
--   Graph.antt             Node.cpp, Graph.cpp
--   Policy.antt            Policy.cpp
--   Library.antt           Action_Library.cpp, Agent.cpp; Library/Environment is Environment_Loader.cpp
--   Planner.antt           Planner.cpp; Planner/Winning what can be won and the invariant of the graph,
--                          Cases, Mark, Propagate, Attach, Partial, Expand, Outcomes and Sound its
--                          preservation, Tree, Children, Upward,
--                          Extract, Ready, Steps, Progress and Runs that the search does not fail
--   Domain.antt            Domain.cpp
--   Interface.antt         DEL_Interface.cpp, Interface_DTO.cpp
--   Reasoning.antt         EpistemicReasoning.{h,cpp}: queries; Reasoning/Evaluate build_formula, evaluate
--                          and query, Reasoning/Robot the state and its operations, Reasoning/Names and
--                          Markers the names of objects, Answers and Filter what queries return
--   Tracking.antt          WorldModel.{h,cpp}: the status of objects
--   Executor.antt          executor.cpp, state.h; Executor/Calls the calls that a state gets. Waiting,
--                          Calibration and Greet, whose tick is Greet/Tick, are the states of that name in
--                          src/executor/states, with
--                          Calibrated, Silent and Greeted what they do over many ticks; Sequences the sequences
--                          ShowBox and PushCube of Observing.cpp, with Shown what they come to
--   Script.antt            src/ocs/ScriptRunner.{h,cpp}; Script/Wrap the lines of a sentence, Loaded and
--                          Presses the items that the buttons reach
--   Buffers/Queue.antt     include/core/MPSCQueue.h; QueueLaws against a first-in-first-out queue
--   Buffers/Ring.antt      include/common/RingBuffer.h; RingLaws what a ring holds, RingMade new rings, and
--                          Buffers/Round the slots between two positions, for both
--   Message.antt           include/common/Message.h, src/common/Message.cpp; Message/RoundTrip the texts
--   Store/Redis.antt       src/core/KVStore.cpp, with Redis as the record Redis; Store/Values its values
--   Store/Channels.antt    Node::advertise of include/core/Node.h; Clients, Agreement, Effects and Nodes what nodes
--                          get that run it at the same time, Advertise what one node gets
--   Topics.antt            Publisher, Subscriber and Node of include/core/Node.h, network_tick of
--                          src/core/Node.cpp; Topics/Handler is include/common/SubscriptionHandler.h. Unread
--                          is their specification by lists of unread messages, Delivery publish and the tick
--                          of a handler, Network, Receive and Echo the tick of the network, Again advertise
--   Checks.antt            small models, tests, and the theorems applied to them
--   Common.antt            lists, tests, options, texts and sets that all parts share
--
-- Functions keep their names; a method is a function of the object and returns the object it leaves. A
-- result of Option is `none` where the code has undefined behaviour (an index out of range, a function
-- that ends without a value), throws, or aborts. A C++ vector is a list that is read by position, a
-- number is a natural number; the code only counts up, from sizes of vectors, so the bounds of size_t are
-- left out.
--
-- Fuel: Formula::valuate has the length of the arena, since a longer chain of calls would repeat a
-- component and never end; the searches along relations have a round for each designated world and each
-- relation; the propagations and the extraction have a round for each node. The main loop of find_policy
-- need not end, so its rounds are an argument. The partition refinement of the bisimulation has a round
-- for each world and one more.
--
-- The lines of a sentence of n bytes have 42 * (n + 2) rounds, since a line takes at least a byte in at most
-- 42; the size of a ring is found in as many rounds as the size asked for, and take_all has mask + 1.
--
-- The executor's states act on a machine, one record that stands for the robot and the states; what a state
-- tells the robot is a list of commands in their order. A node that runs advertise sends one command to the
-- store at a time, and the commands of several nodes are interleaved in every order.
--
-- A queue of 16 cells holds at most 15 messages, so a loop over what is unread has 16 rounds; the loop of a
-- handler need not end when its callbacks publish, so its rounds are an argument.
--
-- What the code leaves open is an argument: the value of the root that the constructor of Graph does not
-- set (garbage), the iteration order of unordered sets and maps (order, arrange), and the capacity of a
-- vector whose growth would invalidate the iterators of a running loop (capacity). The classes
-- del::domain and del::formula come from another repository, a git submodule; they are the record Del,
-- and the laws that a theorem assumes of them are the record Laws.
-- Redis is a record in the same way, and so are its laws: what a command that succeeds has done, and when
-- one does. Any command may be answered by an error.
--
-- Not modelled: in EpistemicReasoning the views that are
-- published, answer_question and update_container; in WorldModel the matching of percepts, calibration,
-- triggers and transformers; the handlers of speech and percepts in Observing.cpp; rings of
-- more than 128 values, and how long the pointers live that a message is built of; spin
-- and internal_tick of Node, sockets, threads, perception, views and device code, which is input and output around these parts.
mod Common
pub mod Formula
pub mod World
pub mod State
pub mod Action
pub mod Operations
pub mod Graph
pub mod Bisimulation
pub mod Policy
pub mod Domain
pub mod Interface
pub mod Library
pub mod Planner
pub mod Reasoning
pub mod Tracking
pub mod Script
pub mod Buffers
pub mod Message
pub mod Store
pub mod Topics
pub mod Executor
mod Checks
