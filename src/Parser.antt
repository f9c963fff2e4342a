-- ===== src/Parser.antt =====
-- The parser service: log-services/parser/core and log-services/parser/parser.
pub mod Model
pub mod Number
pub mod Record
pub mod Classify
pub mod Sections
pub mod KeyValue
pub mod Merge
pub mod Table
pub mod Finalize
pub mod Archive
pub mod Paths
pub mod Engine
