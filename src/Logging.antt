-- ===== src/Logging.antt =====
-- The logging library of base/: log statements, the stream that formats a line, the asynchronous queue of
-- lines, and the log file.
pub mod FixedBuffer
pub mod Async
pub mod Stream
pub mod LogFile
pub mod Printf
pub mod Logger
