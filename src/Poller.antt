-- ===== src/Poller.antt =====
-- src/util/EPoller.h and src/util/EventFD.h: a loop that waits for events of descriptors.
pub mod Kernel
pub mod Events
pub mod Loop
pub mod Shutdown
