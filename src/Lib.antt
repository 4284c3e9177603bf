-- ===== src/Lib.antt =====
-- k8s-vectordb-sync: a controller that watches a Kubernetes cluster and sends what changes to
-- cluster-whisperer, in batches over HTTP.
--
-- The parts. The watcher (internal/controller/watcher.go) discovers the resource types, asks the
-- filter (internal/filter/filter.go) which of them to watch, turns each object that changes into an
-- instance (internal/metadata/extract.go) and sends an event on one of two channels: the instances,
-- and the names of the CRDs. A debounce buffer at the end of each channel
-- (internal/controller/debounce.go, internal/controller/crd_debounce.go) keeps the last state of
-- each resource until it has settled, batches, and sends payloads on a channel of its own. A REST
-- client (internal/client/rest.go) posts each payload, with retries; the loop that hands it the
-- payloads is in cmd/main.go. A server (internal/api/server.go) has an endpoint that makes the
-- watcher list everything again. The settings of all of them come from the environment
-- (internal/config/config.go).
--
-- The files. A module has the name of the part it models and its definitions those of the
-- functions in the code's words (`flushPending` is `flush_pending`); the child modules hold the proofs.
-- - Base: what the modules share: the tests on numbers, lists, the integers of Go.
-- - Text, KeyMap, Runtime: strings, maps, channels and timers as Go has them. A text is a list of
--   bytes. A map is an association list without a key twice; the order in which a loop visits it is
--   an argument, `Visit`. A channel is a queue with its capacity. A timer is armed until it fires or
--   is stopped, and may fire at any moment: durations are recorded and not measured.
-- - Config, Filter, Metadata, Client, Watcher: a module per source file; Event holds the events of
--   watcher.go. What Kubernetes, the network, the clock and the environment answer is an argument.
-- - Debounce and CrdDebounce: the methods of a buffer, on its state. `none` is a panic. In
--   Debounce/System and CrdDebounce/System a system is the buffer, whether `Run` still runs, and the
--   payloads that were delivered; an action is one round of the `select` of `Run`, the callback of a
--   timer, or a receive by the consumer, and a run is any sequence of actions. There each action
--   runs to its end; Races, InFlight and CrdDebounce/Generations take the critical sections of
--   the mutexes apart. In InFlight the callbacks that stand
--   between two sections are counted; Batches is about how many upserts they collect.
--   Debounce/Kept and CrdDebounce/Kept are the induction over the runs for any property that the
--   operations keep; Runtime/Armed, the two ArmedRuns and the two Settle are about the timers and how
--   a buffer comes to rest.
-- - Watcher/Start is `Start` of watcher.go and the life of the watcher as a sequence of steps: the
--   callbacks of the informers, resyncs, the cancellation, and the receives of the consumers. A
--   resync is one step, whose events stand together, or one step for each object that it sends, in
--   any order with the others. Watcher/Due says what is to be sent; Watcher/Sending, Watcher/Passing
--   and Watcher/Flow follow what is sent by a callback, by a step and in a run, with Runtime/Growth
--   for one channel; Watcher/Expected says the same as Watcher/Due with updates compared as maps; in
--   Watcher/Unread nobody reads the CRD events, and Watcher/Resync is about the
--   periodic resync of the informers.
-- - Api: the server with the endpoint.
-- - Startup: `main` of cmd/main.go once the flags are parsed, with the manager of controller-runtime
--   as an interface, and the calls that its runnables make. The objects that it makes stand on a
--   heap; a runnable holds pointers, and a channel is that of the object that made it.
-- - Sender: the loop of cmd/main.go, both pipelines from the callbacks to the receiver, and, in
--   Sender/Repair, the resync over the endpoint.
-- - Store: the abstract receiver, a function from identifiers to what it holds, with which
--   Debounce/View and CrdDebounce/View say what a buffer means.
--
-- Bounds. Numbers are natural numbers; the generations wrap around at 2 ^ 64, the durations at 64
-- bits. The loops run over lists, and the retry loop over the number of attempts, `maxRetries + 1`,
-- which is taken not to overflow. Only the decimal digits of a number are produced on fuel, of as
-- many rounds as the number, which has no more digits than that. The delays of the client are exact
-- numbers of nanoseconds where the code rounds to float64; there the statements on delays hold up
-- to that rounding.
--
-- Not modelled: what net/http, controller-runtime and client-go do behind the calls of the code; the
-- parsing of flags, logging and the scheme of cmd/main.go; the texts of the errors of the REST
-- client; the JSON of the payloads, which is an argument of the client. `to_lower` and `trim_space`
-- are those of ASCII texts. The end-to-end helpers and the mock server under test/ are test code.
pub mod Api
pub mod Base
pub mod Text
pub mod KeyMap
pub mod Metadata
pub mod Runtime
pub mod Filter
pub mod Client
pub mod Sender
pub mod Watcher
pub mod Config
pub mod Startup
pub mod Store
pub mod Event
pub mod Debounce
pub mod CrdDebounce
