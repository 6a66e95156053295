-- ===== src/Session.antt =====
-- web-rpc/src/{lib,client,service}.rs: the two halves of an interface while it runs.
pub mod Formats
pub mod Message
pub mod State
pub mod Client
pub mod Dispatcher
pub mod Polls
pub mod Sound
pub mod Calls
pub mod World
pub mod Live
pub mod Answered
pub mod Overtaken
pub mod Numbers
pub mod Replies
pub mod Streams
pub mod Shrinks
pub mod StreamOrder
pub mod StreamHistory
pub mod Drain
pub mod Build
pub mod Frame
pub mod Local
pub mod Alive
pub mod BuildTests
mod OvertakenTests
pub mod Tests
