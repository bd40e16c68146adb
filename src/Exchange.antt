-- ===== src/Exchange.antt =====
-- rtb/exchange: the handler of bid requests and the collector of several bidders' responses.
pub mod Handler
pub mod Collector
pub mod Multi
