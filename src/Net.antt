-- ===== src/Net.antt =====
-- net/: the byte buffer and its chains, the connection and the pool of connections.
pub mod Buffer
pub mod Chain
pub mod Connection
pub mod ConnectionPool
pub mod TcpServer
pub mod TcpClient
mod Tests
