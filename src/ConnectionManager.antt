-- ===== src/ConnectionManager.antt =====
-- src/connection_manager.cc and src/include/connection_manager.h: connections, frame
-- boundaries and the read and write state of each connection, over the reactor.
-- Results of the system calls are scripts in the state: each ::send, ::recv or ::accept takes the
-- next entry, and an empty script means that the call would block. ::close and the bytes that the
-- kernel takes are recorded. Log lines are left out.
pub mod State
pub mod Output
pub mod Input
pub mod Accept
