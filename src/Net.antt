-- ===== src/Net.antt =====
-- The TCP layer, src/net/tcp.
pub mod Buffer
pub mod Address
pub mod TcpConnect
pub mod TcpServer
pub mod SocketAddr
