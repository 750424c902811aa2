-- ===== src/Lib.antt =====
-- The benchmark client for model servers, src/*.rs: a run loads endpoints and prompts, schedules
-- requests, sends them under a concurrency cap, reads the streamed responses, and gates what it
-- measured. What follows is a model of its core, translated from the code, with theorems on it.
--
-- The parts and the files that model them:
-- - Sse.antt: the parser of event streams, src/sse.rs. A parser is its pending bytes and the lines of
--   the current event; `feed` takes a chunk and returns the events that it completes. Sse/Scan.antt
--   is the byte-by-byte reading that `feed` is compared with, Sse/Chunks.antt the chunks of a
--   body, Sse/Frames.antt what a server writes.
-- - Chat.antt: a streamed chat response, src/chat_stream.rs, src/usage.rs, src/error.rs and
--   `classify_app_error` of src/jsonl.rs. Chat/Consumer.antt is `Consumer` with `feed` and `finish`,
--   built on the parser of Sse.antt; Chat/Stream.antt the loop of `consume_with_clock`, whose clock
--   readings are part of its input.
-- - Concurrency.antt: the in-flight gauge and the permits, src/concurrency.rs. A request is a phase,
--   and Concurrency/System.antt lets any number of requests run in any order.
-- - Endpoints.antt: loading and selection of endpoints, src/endpoints.rs. Endpoints/Selector.antt has
--   `EndpointSelector`; Endpoints/Leases.antt lets selections, drops of leases and failures to
--   connect happen in any order.
-- - Summary.antt: the sums of the tokens of a run, src/summary.rs.
-- - Endpoints/Redact.antt: `redact_url` and its pass over the text, src/endpoints.rs;
--   Endpoints/Redact/Masked.antt says what it leaves.
-- - Arrival.antt: the schedules of src/load.rs. Runner.antt: the stop flag and the warmup barrier of
--   src/runner.rs, which take the schedule and reset the gauge of Concurrency.antt.
-- - Measurement.antt: the gates of src/measurement.rs, over the fields of src/record.rs they read.
-- - Prompts.antt: recorded prompt sequences and their replay, src/prompt_sequence.rs.
-- - Telemetry/Exposition.antt: the parser of metrics pages, src/telemetry/parser.rs, on the sample
--   lines of Telemetry/SampleText.antt.
-- - Telemetry/History.antt: the buffers of sample times, src/telemetry/scraper.rs.
--   Telemetry/Writer.antt: the writer of telemetry rows, src/telemetry/writer.rs, whose senders and
--   writer task take their steps in any order.
-- - Asr.antt: the accuracy of a transcript, src/asr.rs; Asr/Distance.antt has the edits that the
--   distance is compared with.
-- - Vlm.antt: the cache of images, src/vlm.rs; Vlm/Lru.antt has the list of images that it is compared
--   with.
-- - Strategic/Knee.antt: the knee of a load sweep, src/strategic.rs: the saturated stage, and in
--   Strategic/Knee/Detect.antt the rise of the latency, Kneedle and the detection.
-- - Stats.antt: distributions and the bootstrap, src/stats.rs.
-- - TimeWeighted.antt: the sweep over the intervals of the requests, src/time_weighted.rs, and in
--   TimeWeighted/Blocks.antt the six blocks that it is run on. IslOsl.antt: lengths against targets,
--   src/isl_osl.rs, which takes its distributions from Stats.antt.
-- - Text.antt: the operations of Rust's strings, its lossy UTF-8 decoding and its maps, which
--   the parts share. Base.antt: lists, options and numbers. Tests.antt: the parameters as concrete
--   functions, and each theorem at a concrete input.
--
-- Parameters, since they are not in the repository: serde_json, reqwest, the YAML reader, the
-- semaphore of tokio, the digest of sha2, the Unicode tables of case and letters, f64 and its syntax,
-- and random numbers. Of the semaphore what is assumed is that it counts its permits; of the digest,
-- that a fingerprint is not empty; of a drawn number, that it is below its bound; of f64, where a
-- theorem says so, that its comparisons order the finite values; of the rest, nothing. The text of
-- `serde_json` and the file behind the telemetry writer do not fail.
--
-- Machine integers are numbers with their wrap-around written out where the code adds or
-- subtracts without a check. Times are nanoseconds. A text is a list of code points. What panics is
-- an outcome of its own (`none` in Endpoints/Selector.antt, Arrival.antt, Stats.antt, IslOsl.antt
-- and Strategic/Knee.antt, `panic` in Prompts.antt).
--
-- Fuel: `feed_loop` has the length of the pending bytes, since each round takes a newline at
-- least; `labels_loop` has one round more than there are characters, since each round but the last
-- takes a key; `decimal_onto` has the five digits of a `u16`; `drain` has
-- what the writer task has still to do: five rounds for each row in the channel, and those left of
-- a row it holds.
--
-- Not modelled: files, sockets and the printing of messages (an error is the branch that raised it);
-- the drain of a body after its result was built; the reports of a sweep, those of a run but for its tokens, the telemetry
-- session around the parser, the buffers and the writer, and the request bodies of the other
-- modalities, which are mostly input and output and the building of JSON.
pub mod Base
pub mod Text
pub mod Sse
pub mod Json
pub mod Chat
pub mod Concurrency
pub mod Prompts
pub mod Telemetry
pub mod Endpoints
pub mod Arrival
pub mod Runner
pub mod Measurement
pub mod Asr
pub mod Strategic
pub mod Stats
pub mod IslOsl
pub mod TimeWeighted
pub mod Summary
pub mod Vlm
pub mod Tests
