-- ===== src/Lib.antt =====
-- Ruvoy runs a Rack application inside an Envoy worker: an HTTP filter hands each request to a Ruby
-- runtime, whose fibers read the upload, write the response and call upstream clusters through the
-- filter. This library models that bridge and proves what its parts promise each other.
--
-- The parts, by file:
--   Stream: src/stream.rs, `ResponseStream`, the bounded queue between one writer and one reader
--     that carries uploads, responses and the bodies of upstream calls. An operation under the mutex
--     is one function on the queue's contents; a run is a list of operations.
--   Budget: src/budget.rs, the lock-free ceiling on admitted requests, one atomic access a step.
--   Chunks: src/chunks.rs and `upstream_error` of src/extensions.rs, the ends that Ruby holds.
--   Error, Response, Request: src/error.rs, src/response.rs, src/request.rs, src/context.rs.
--   Upstream: src/upstream.rs, the route `Upstreams` on which fibers queue calls for their worker,
--     and `StreamChannel`, what a fiber and the worker share of a streamed call.
--   EnvoyUpstream: crates/ruvoy-envoy-fiber/src/upstream.rs and `CallOutcome` of its metrics.rs. Calls
--     is `send`, `deliver` and `start`, OpenStream the state machine of a stream, Headers what both
--     read and write of header fields.
--   Worker: crates/ruvoy-envoy-fiber/src/worker.rs, the filter. Metadata is `copy_headers` and
--     `request_metadata`, Submit `submit` and `abandon_upstreams`, Upload `forward_request_body`,
--     Downstream `drain_stream`, Upstreams `send_upstream_calls`, `pump_streams` and the callbacks of
--     upstream calls, Handlers the other callbacks and a request's life as a sequence of them.
--     Metrics is metrics.rs of the same crate, what the counting effects write.
--   Rack: src/rack.rs. Env is `build_env` and the inputs, Respond `response_parts`, `respond`,
--     `call_streaming` and `call`; Rack itself `env_header_key` and `accepted_protocol`.
--   Extensions: src/extensions.rs. Calls is what Ruby holds of an upstream call or stream, Headers
--     `rack_headers`, Hashes what it reads of a request's context.
--   Fiber: src/fiber.rs and src/wake.rs. Bridge is the commands and a pass of `drain`, Client the
--     handle that submits work with the permits of the calls, Execute `execute`, Collect `call` and
--     `submit_collected`, Wake the socket, Reactor the passes and the producers interleaved.
--     Lifecycle is the start of the thread, what it runs, and its shutdown, with src/vm.rs.
--   Process: crates/ruvoy-envoy-fiber/src/runtime.rs, the configuration and the one runtime of a
--     process. Bootstrap is bootstrap.rs of the same crate, the extension that owns the runtime.
--   EnvoyContext: crates/ruvoy-envoy-fiber/src/context.rs, what a filter copies of Envoy's attributes
--     and metadata.
--   Serial: src/sync.rs, the serial runtime. Filter is crates/ruvoy-envoy-sync/src/worker.rs, the
--     filter over it, and Config the runtime.rs and lib.rs of that crate.
--   Baseline: crates/ruvoy-envoy-baseline/src/lib.rs, the filter that answers without Ruby.
--   Prelude, Table, Std: shared names and lemmas, `HashMap<u64, _>`, and what the code uses of the
--     standard library's texts.
--
-- How the code is modelled. State is a record with the fields of the source; a method is a function
-- from the state to the new state and its result. Numbers are natural, `usize` sums are taken modulo
-- 2 ^ 64, and a subtraction that the source saturates is the one on natural numbers. Texts are their
-- bytes. Time is an argument, in nanoseconds. What the filter does to the world is a list of effects
-- in their order. What Envoy, the runtime's client and the fibers do is an argument or an event of a
-- run: Envoy's answers to a call, the callbacks that it makes from inside one, its two request
-- buffers. A stream that is shared stands in the filter as the worker sees it; what a fiber did to
-- it since is an event.
--
-- Loops are structural but for the send loop of `pump_streams`, which gets two turns more than the
-- stream has items queued: each turn but the last sends an item or the one reset. The retry loop of
-- `Budget::take` is a step relation where threads race, and where one runs alone it recurs on the
-- list of its passes.
--
-- Not modelled: the Ruby VM, what runs in it and the loading of its code; src/host.rs, which keeps
-- the shared object loaded; the registration of the modules with Envoy in lib.rs of the crates.
pub mod Prelude
pub mod Error
pub mod Response
pub mod Stream
pub mod Budget
pub mod Chunks
pub mod Upstream
pub mod Table
pub mod Std
pub mod EnvoyUpstream
pub mod Request
pub mod Worker
pub mod Rack
pub mod Fiber
pub mod Extensions
pub mod Process
pub mod EnvoyContext
pub mod Serial
pub mod Baseline
