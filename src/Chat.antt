-- ===== src/Chat.antt =====
-- The chat stream: what a JSON event says (src/sse.rs, src/usage.rs), the errors of a request
-- (src/error.rs, src/jsonl.rs), and the consumer of a response body (src/chat_stream.rs).
pub mod Choice
pub mod Usage
pub mod Errors
pub mod Trace
pub mod Consumer
pub mod Stream
