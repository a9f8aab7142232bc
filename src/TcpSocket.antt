-- ===== src/TcpSocket.antt =====
-- Safe_transmission/ServerSeckey/ServerSeckey/TcpSocket.cpp: messages with a length in front, over a
-- connection.
pub mod Os
pub mod Stream
pub mod Timeout
pub mod Message
pub mod Connect
