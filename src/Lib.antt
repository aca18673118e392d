-- ===== src/Lib.antt =====
-- A model of the VDA 5050 demonstrator: the robot's handling of orders and actions, the graph check
-- that every order passes first, the simulated drive, the fleet's dispatcher and the orders of its
-- experiments, the topics, and the viewer's hub and control panel.
--
-- An order message is a graph of nodes and edges numbered by sequenceId: a released base, and a horizon
-- behind it. The robot's handler (robot/main.go, `onOrder`) runs `ValidateOrder`
-- (common/validations/order.go), then `AcceptOrder` (robot/order_state.go) on the state it keeps, and
-- then starts the simulator (sim/kinematics.go) or hands it the new chain. The simulator's ticks report
-- the nodes that are reached, whose actions go to the queue of robot/action_engine.go. Instant actions
-- (robot/instant_actions.go) cancel the order, pause, or resolve an action that waits for a retry.
--
-- The fleet's dispatcher (fleet/dispatcher.go) releases a long route window by window: the first window
-- is a new order, and each time the watcher of the robot's state messages (fleet/state.go) sees that the
-- robot asks for a new base, the next window goes out as an update. All messages go over MQTT topics
-- (common/topics.go). The viewer (viewer/main.go) passes them on to browsers through the hub
-- (common/hub.go), and publishes the orders and instant actions of its control panel, of which the drop
-- gate can swallow one.
--
-- Which file models which part:
--   Prelude             lists, whole numbers over the native naturals, text, tests
--   Errors              common/errors/error.go
--   Geometry            common/geometry/geometry.go; float64 is a parameter with its operations
--   Models              common/models, a child for each of action.go, order.go and state.go,
--                       and Connection for connection.go and visualization.go
--   Validation          common/validations/order.go: `ValidateOrder` is `validate_order`. Sorting has
--                       `Sequence` and `sort.Slice`; Route is the abstract description of an order's
--                       graph; Elements and Decides relate the two; Ordered and Merging are about the
--                       sort, Numbers about sequenceIds, Weave about orders that list their route
--   Robot/OrderState    the record `OrderState`, `IsIdle`, `decisionPoint`, `stitch`, `accept`; its
--                       children Kept, Stitching, Sound and Updates are about an update's graph, Base
--                       about an order without a horizon
--   Robot/AcceptOrder   `AcceptOrder`; its children: what it decides (Decision), repeated and late
--                       messages (Replay), the kept invariant (Soundness), orders that stop the robot
--                       (Faults)
--   Robot/ActionEngine  `ActionEngine` with all its methods; its children: the shape of the queue
--                       (Orderly), a pass of `Advance` (Progress), `Retry` and `SkipRetry` (Retry)
--   Robot/Main          `Robot`, `onOrder` and `onTick` of robot/main.go; its children: what the order
--                       handler leaves (Handler), an update that reaches a waiting robot (Extension)
--                       or one on its way (Skips)
--   Robot/InstantActions  robot/instant_actions.go
--   Robot/State         `buildState` and `StatePublisher` of robot/state.go, and the tick of
--                       `runActionEngine`; the child Reports is about what is reported, Round has a
--                       round of the publisher's `Run`
--   Robot/Session       `onConnect`, `shutdown` and the will of robot/main.go; the child Announced is
--                       about what the robot says of its connection
--   Robot/Drive         a round of `Run` of sim/kinematics.go with the gate of robot/main.go, the
--                       messages for the viewer; its children: when the robot moves (Held), what the
--                       robot publishes of an order that it refuses (Rejection)
--   Robot/Loop          `Run` of sim/kinematics.go one access at a time, interleaved with the robot's
--                       handlers; its children: the channel that wakes it (Roused, Wake), when it goes on
--                       (Resumes, Runs), a cancelOrder in between (Crash, FirstLeg, Late), the order
--                       and the chain side by side (Course)
--   Robot/RoundTrip     an order that ends where it starts
--   Sim                 `Simulator`, its tick `step` and `Extend`
--   Fleet/Experiments   the orders of fleet/publish.go
--   Fleet/Publishing    how orders are published: fleet/publish.go, the `publish` of
--                       fleet/dispatcher.go, `onConnect` of fleet/main.go; the child Sent is about
--                       which orders go out
--   Fleet/Watcher       fleet/state.go; the child Pending is about one robot's entry
--   Fleet/Dispatcher    fleet/dispatcher.go: `Start`, `ExtendIfNeeded` and what they call. Plan is the
--                       abstract view, a route and how far it is released; Marking, Steps and Refines
--                       relate the two; Windows has the orders of a plan, Demo that of `demoRoute`
--   Delivery            the dispatcher and the robot as one system, with its steps; its children: what
--                       keeps the two in step (InStep, Synced), the orders that are taken (Accepted),
--                       a whole plan (Release), an order that does not arrive (Lost, Behind), an order
--                       that the robot cancels (Cancelled)
--   Delivery/Feedback   the same with the watcher, to which the robot's state messages go, and the
--                       `OnRequest` of fleet/main.go; its children: the nodes that the robot has before it
--                       (Road), a request that is answered (Cycle), or missed (Overlooked)
--   Topics              common/topics.go; its children: the checks (Segments, Names), the parts of a
--                       topic (Levels, RoundTrip), the subscriptions (Subscriptions)
--   Hub                 common/hub.go; its children: a round of writes (Rounds), the map of the latest
--                       messages (Latest), any calls of the methods (History)
--   Mqtt                the calls that are made of the MQTT client
--   Viewer              the handlers of viewer/main.go; its children: the drop gate (Drops), what the
--                       viewer hears (Subscribed), the websockets of its browsers (Tabs)
--   Headers             common/header.go
--   Examples            runs on concrete orders and queues
--
-- Code that mutates a shared record returns the new record. A mutex makes each method one step, so a
-- history is a list of calls (`run` in Robot/ActionEngine/Orderly). An index outside of a slice, a panic,
-- is `none`. A clock reading or a random draw is an argument, one for each place that asks. Go's `int` is
-- a whole number, since the program only adds one to numbers of a message; float64 is any type with the
-- operations that the code calls. `sort.Slice` leaves open how it arranges equal keys; the model keeps
-- them as they stood. Every loop runs over a list, or a count of rounds that the code computes; only
-- the decimal form of a number n runs on fuel, n + 1, which bounds its digits.
--
-- MQTT delivers a topic to the subscriptions that cover it level by level; `Covers` writes that rule
-- out. Texts of the program are taken to be valid UTF-8.
--
-- Not modelled: the MQTT client, JSON, HTTP and websockets, which are libraries (a call of the client is
-- a value of Mqtt, and its outcome an argument, as is whether a message can be encoded), and their glue:
-- the rest of the three `main` functions, and tickers, which may let a loop go on at any time.
-- Fleet/Dispatcher returns what is published as an order, and Fleet/Publishing publishes it.
--
-- The steps of Delivery leave out cancelOrder, which Cancelled and Feedback add. An order that is sent
-- arrives at once or, in Behind and Feedback, never; so does a state message in Feedback. In Delivery and
-- Feedback a robot may arrive at nodes to which the drive of Sim would not take it.
-- In Robot/Loop a handler is one step, and so is `onTick`. `stitch` filters its slices in place, and until
-- `Extend` runs the simulator still reads that memory: the model takes the two calls as one step.
pub mod Validation
pub mod Sim
pub mod Robot
pub mod Fleet
pub mod Delivery
pub mod Topics
pub mod Hub
pub mod Viewer
pub mod Mqtt
mod Examples
pub mod Prelude
pub mod Errors
pub mod Geometry
pub mod Models
pub mod Headers
