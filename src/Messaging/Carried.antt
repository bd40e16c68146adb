-- ===== src/Messaging/Carried.antt =====
-- rtb/messaging/serialization.hpp: what a Boost archive carries of a request and of a response. The
-- archive is read into fresh values, so a member that `serialize` leaves out comes out as it is in a fresh
-- one; a vanilla::unicode_string and the members of an empty `serialize` come out empty.
use vanilla_rtb.Base.{[], map, Option, none, some}
use vanilla_rtb.OpenRtb.{
  Banner, Video, Native, Impression, Site, User, UserData, BidRequest, Bid, SeatBid, BidResponse,
  default_bid,
}
use vanilla_rtb.OpenRtb

-- The optional's value, if there is one.
abbrev carried_optional : {A : Type 0} → (A → A) → Option A → Option A
carried_optional f none = none
carried_optional f (some a) = some (f a)

abbrev pub carried_bid : Bid → Bid
carried_bid b = record default_bid {
  id = b.id;
  impid = b.impid;
  adid = b.adid;
  nurl = b.nurl;
  adm = b.adm;
  adomain = b.adomain;
  iurl = b.iurl;
  cid = b.cid;
  crid = b.crid;
  attr = b.attr;
  dealid = b.dealid;
  w = b.w;
  h = b.h;
}

abbrev pub carried_seat_bid : SeatBid → SeatBid
carried_seat_bid s = record s { bid = map carried_bid s.bid; ext = [] }

abbrev pub carried_response : BidResponse → BidResponse
carried_response r = record r { seatbid = map carried_seat_bid r.seatbid; ext = [] }

abbrev pub carried_banner : Banner → Banner
carried_banner b = record b { ext = [] }

abbrev pub carried_video : Video → Video
carried_video v = record v { ext = [] }

abbrev pub carried_native : Native → Native
carried_native n = record { request = []; ver = []; api = []; battr = []; ext = [] }

abbrev pub carried_impression : Impression → Impression
carried_impression imp = record imp {
  banner = carried_optional carried_banner imp.banner;
  video = carried_optional carried_video imp.video;
  native = carried_optional carried_native imp.native;
  displaymanager = [];
  displaymanagerver = [];
  tagid = [];
  ext = [];
}

abbrev pub carried_geo : OpenRtb.Geo → OpenRtb.Geo
carried_geo g = record g { ext = [] }

abbrev pub carried_data : UserData → UserData
carried_data d = record d { segment = []; ext = [] }

abbrev pub carried_user : User → User
carried_user u = record u {
  geo = carried_optional carried_geo u.geo;
  user_data = map carried_data u.user_data;
  ext = [];
}

-- `fresh_site` is a fresh Site, whose flag has no initialiser.
abbrev pub carried_request : Site → BidRequest → BidRequest
carried_request fresh_site r = record r {
  imp = map carried_impression r.imp;
  site = carried_optional (λ _. fresh_site) r.site;
  user = carried_optional carried_user r.user;
  badv = map (λ _. []) r.badv;
  ext = [];
  unparseable = [];
}
