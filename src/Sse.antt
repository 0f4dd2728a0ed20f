-- ===== src/Sse.antt =====
-- backend-api/internal/sse: the hub of the connected clients.
pub mod Hub
pub mod Subscriber
