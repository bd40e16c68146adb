-- ===== src/OpenRtb.antt =====
-- rtb/core/openrtb.hpp: the OpenRTB structures, at `T = std::string`. A `double` or `float` member
-- is a number of millionths: prices and floors are micro dollars.
mod Enums
mod Media
mod Request
mod Response
pub use Enums.*
pub use Media.*
pub use Request.*
unfoldable pub use Response.*
