-- ===== src/Dsl.antt =====
-- rtb/DSL: how a bid request is read from the tokens of its text, and how a bid response is written.
-- The tokens are those of the copy of jsmn in parsers/, and the writer is that of the copy of rapidjson:
-- both are arguments here.
pub mod Values
pub mod Encode
pub mod Blank
pub mod Extract
pub mod Mapper
pub mod Serialize
pub mod Rapid
