-- ===== src/Tests/Samples.antt =====
-- Sample requests, ads and responses.
use vanilla_rtb.Base.{ℕ, false, List, [], ◌∷◌, Option, none, some, Text, codes, pos}
use vanilla_rtb.OpenRtb.{
  AuctionType, AdPosition, FramePosition, Banner, Impression, BidRequest, BidResponse, default_bid,
  default_seat_bid,
}
use vanilla_rtb.Selection.{Ad, default_ad}
use vanilla_rtb.Exchange.Collector.{empty_response}

abbrev pub banner_of : ℕ → ℕ → Banner
banner_of w h = record {
  w = w;
  h = h;
  wmax = none;
  hmax = none;
  wmin = none;
  hmin = none;
  id = [];
  pos = AdPosition.unknown;
  btype = [];
  battr = [];
  mimes = [];
  topframe = FramePosition.undefined;
  expdir = [];
  api = [];
  ext = [];
}

abbrev pub impression_of : Text → Option Banner → Impression
impression_of id banner = record {
  id = id;
  banner = banner;
  video = none;
  native = none;
  displaymanager = [];
  displaymanagerver = [];
  instl = false;
  tagid = [];
  bidfloor = pos 0;
  bidfloorcur = codes "USD";
  secure = pos 0;
  iframebuster = [];
  pmp = false;
  ext = [];
}

abbrev pub request_of : List Impression → BidRequest
request_of imp = record {
  id = codes "request";
  imp = imp;
  site = none;
  app = false;
  device = false;
  user = none;
  at = AuctionType.first_price;
  tmax = pos 0;
  wseat = [];
  allimps = false;
  cur = [];
  bcat = [];
  badv = [];
  regs = false;
  ext = [];
  unparseable = [];
}

abbrev pub two_impressions : BidRequest
two_impressions = request_of (
    impression_of (codes "top") (some (banner_of 728 90))
    ∷ impression_of (codes "side") (some (banner_of 160 600))
    ∷ [])

abbrev pub ad_of : ℕ → ℕ → Option ℕ → Ad
ad_of id most auth = record default_ad { ad_id = id; max_bid_micros = most; auth_bid_micros = auth }

abbrev pub response_at : ℕ → BidResponse
response_at price = record empty_response {
  seatbid = record default_seat_bid { bid = record default_bid { price = price } ∷ [] } ∷ [];
}
