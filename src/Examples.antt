-- ===== src/Examples.antt =====
-- The theorems applied at concrete inputs, and the code run on the bytes of the unit tests
-- (tests/unit/ under cpp_rabbitmq_client_stream).
mod Wire
mod Types
mod Bodies
mod Routes
mod Bootstrap
mod Clients
mod Links
mod Sockets
mod Connections
