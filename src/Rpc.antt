-- ===== src/Rpc.antt =====
-- src/std/rpc: the JSON-RPC requests, the messages of a node, and the WebSocket client.
pub mod Types
pub mod Requests
pub mod Status
pub mod Subscriber
pub mod Threads
pub mod Handlers
pub mod ApiError
pub mod Client
pub mod Events
