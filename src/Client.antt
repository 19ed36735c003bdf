-- ===== src/Client.antt =====
-- src/networkxio/NetworkXioClient.cpp and gobjfs_client.cpp: the client of the server. The children
-- have the connection with its credits, its start and end, and the requests of callers.
pub mod Credits
pub mod Aio
pub mod Vectors
pub mod Opening
pub mod Completions
pub mod Session
pub mod Reading
