-- ===== src/Session.antt =====
-- include/session.h, src/session.cc: one connection. `process_req` routes a request to a handler
-- or to the cache; `received_req` cuts the received bytes into requests.
pub mod Routing
pub mod Matching
pub mod Selection
pub mod Answers
pub mod Caching
pub mod Memo
pub mod Lengths
pub mod Receive
pub mod Pipeline
pub mod Hangs
pub mod Trailing
pub mod Logged
pub mod Reported
pub mod Lifetime
pub mod Guarded
pub mod Silent
pub mod Ending
pub mod Conversation
pub mod Delivered
pub mod Clients
pub mod Gone
mod Tests
mod ConversationTests
mod ReportedTests
