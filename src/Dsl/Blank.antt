-- ===== src/Dsl/Blank.antt =====
-- The structures that the extractors of rtb/DSL/extractors.hpp begin with.
use vanilla_rtb.Base.{[], none, Bool, false, pos}
use vanilla_rtb.OpenRtb.{
  AuctionType, AdPosition, FramePosition, GeoType, Banner, Site, Geo, User, Impression, BidRequest,
}

-- What the members without an initialiser happen to hold.
pub record Unset : Type 0 where
  pub position : AdPosition
  pub frame : FramePosition
  pub auction : AuctionType
  pub privacy : Bool

module _ (u : Unset) where
  abbrev pub blank_banner : Banner
  blank_banner = record {
    w = 0;
    h = 0;
    wmax = none;
    hmax = none;
    wmin = none;
    hmin = none;
    id = [];
    pos = u.position;
    btype = [];
    battr = [];
    mimes = [];
    topframe = u.frame;
    expdir = [];
    api = [];
    ext = [];
  }

  abbrev pub blank_site : Site
  blank_site = record {
    context = record {
      name = [];
      domain = [];
      cat = [];
      sectioncat = [];
      pagecat = [];
      privacypolicy = u.privacy;
      publisher = none;
      keywords = [];
      ext = [];
    };
    impl = record { page = []; ref = [] };
    id = [];
  }

  abbrev pub blank_request : BidRequest
  blank_request = record {
    id = [];
    imp = [];
    site = none;
    app = false;
    device = false;
    user = none;
    at = u.auction;
    tmax = pos 0;
    wseat = [];
    allimps = false;
    cur = [];
    bcat = [];
    badv = [];
    regs = false;
    ext = [];
    unparseable = [];
  }

abbrev pub blank_geo : Geo
blank_geo = record {
  lat = pos 0;
  lon = pos 0;
  type = GeoType.undefined;
  utcoffset = pos 0;
  city = [];
  country = [];
  region = [];
  regionfips104 = [];
  metro = [];
  zip = [];
  ext = [];
}

abbrev pub blank_user : User
blank_user = record {
  yob = pos 0;
  id = [];
  buyeruid = [];
  gender = [];
  keywords = [];
  customdata = [];
  geo = none;
  user_data = [];
  ext = [];
}

abbrev pub blank_impression : Impression
blank_impression = record {
  id = [];
  banner = none;
  video = none;
  native = none;
  displaymanager = [];
  displaymanagerver = [];
  instl = false;
  tagid = [];
  bidfloor = pos 0;
  bidfloorcur = [];
  secure = pos 0;
  iframebuster = [];
  pmp = false;
  ext = [];
}
