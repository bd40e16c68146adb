-- ===== src/Lib.antt =====
-- Verification library of vanilla-rtb, a real time bidder and exchange: a publisher's ad request goes
-- to the exchange (rtb/exchange), which asks its bidders for bids and answers the best of them; a bidder
-- (rtb/core/bidder.hpp) finds ads for each impression in its caches (rtb/datacache, examples/matchers)
-- and asks a banker what the campaign's budget allows (examples/campaign).
--
-- Files and the code they model:
--   Base            helpers that every file shares
--   Decision        rtb/common/decision_tree.hpp: decision_action, decision_tree_manager. The walk runs
--                   on fuel: as much as the tree has rows is enough where the rows lead onward
--                   (Decision/Forward). Decision/Plans lays out nested plans as tables.
--   Budget          examples/campaign/campaign_cache.hpp: CampaignBudget and BudgetManager. Sums wrap at
--                   2 ^ 64 as uint64_t does. `kept_budget` is what examples/campaign/serialization.hpp
--                   keeps of a budget
--   OpenRtb         rtb/core/openrtb.hpp
--   Selection       rtb/core/algos.hpp, ad_selector.hpp, banker.hpp and the Ad of examples/matchers/ad.hpp,
--                   with `kept_ad` for examples/bidder/serialization.hpp
--   Targeting       examples/bidder/ad_selector.hpp and the campaign matcher of
--                   examples/bidder_experimental/ico_campaign_bidder_test.cpp, over caches as functions
--   Bidder          rtb/core/bidder.hpp: the state is the response that bid fills; ids come from a
--                   parameter
--   Cache           rtb/datacache/entity_cache.hpp over a Boost container as parameter (Cache/Index);
--                   base_entity.hpp, campaign_entity.hpp and ad_entity.hpp (Cache/Entities), where an archive
--                   reads back, into a fresh value, what `serialize` keeps of the value written;
--                   CampaignCache of examples/campaign/campaign_cache.hpp (Cache/Campaigns); the loading
--                   and the ranges of examples/matchers (Cache/Loader); the caches of AdSelector,
--                   examples/bidder/bidder_caches.hpp (Cache/Matchers); the caches and the chained matchers
--                   of the ICO bidder, examples/bidder_experimental/ico_campaign_bidder_test.cpp with
--                   rtb/datacache/generic_bidder_cache_loader.hpp (Cache/Ico)
--   Exchange        rtb/exchange/exchange_handler.hpp (Handler), multibidder_collector.hpp and
--                   multibidder_communicator.hpp (Collector); the auction and the counters of
--                   examples/multiexchange (Multi)
--   Dsl             rtb/DSL: encoders.hpp, the walk over the tokens of jsmn into a boost::any (Encode, whose
--                   calls nest on fuel: more than there are tokens is enough); extractors.hpp from it
--                   (Extract) and from a rapidjson document (Rapid); any_mapper.hpp (Mapper) and
--                   rapid_mapper.hpp; rapid_serializer.hpp as the calls of the writer (Serialize).
--                   jsmn_parse and lexical_cast are parameters; doubles are numbers of millionths
--   Manager         the handlers of examples/campaign/campaign_manager_test.cpp, over Cache
--   Records         rtb/common/split_string.hpp and the operator>> of Ad, CampaignBudget, GeoCampaign,
--                   Geo, Domain and ICOCampaign (examples/matchers, examples/campaign); boost::lexical_cast
--                   and boost::split are parameters
--   Messaging       rtb/messaging/communicator.hpp: received datagrams are a list of events; Messaging/Round
--                   puts a distributing exchange, its processing bidders and the collector together;
--                   Messaging/Carried is rtb/messaging/serialization.hpp
--   Audit           benchmarks/audit_codec.hpp (Codec) and benchmarks/audit_buffer.hpp (Buffer), the latter
--                   with each access of one thread in the loop of `reserve` as a step, between the calls that
--                   the io_service runs. Several threads share the counter of a segment
--                   (Audit/Buffer/Segment), not the loop of `reserve`
--   Notices         the win notices of examples/campaign/notification_service_test.cpp, which charge a
--                   budget in the cache, and examples/campaign/slavebanker_service_test.cpp
--   Processes       rtb/core/process.hpp: wait and distribute; what the system answers is a list
--   Tests           runs on small inputs, and the theorems at concrete ones
--
-- Not modelled: the copies of other libraries (CRUD, jsonv, rapidjson, jsmn, the URI grammar of
-- cpp-netlib), sockets, logging, configuration and the main functions of the examples. Of rtb/DSL the
-- encoder into a jsonv value and the formats of dsl_mapper.hpp and campaign_dsl.hpp are calls of jsonv.
-- The spawning of processes is not modelled; nor are, of rtb/datacache/entity_cache.hpp, create_ipc_key,
-- the names of the segment, and the update and the removal of a range of several elements.
mod Base
pub mod Decision
pub mod Dsl
pub mod Budget
pub mod OpenRtb
pub mod Selection
pub mod Bidder
pub mod Exchange
mod Tests
pub mod Cache
pub mod Targeting
pub mod Audit
pub mod Messaging
pub mod Records
pub mod Processes
pub mod Notices
pub mod Manager
