-- ===== src/OpenRtb/Response.antt =====
-- rtb/core/openrtb.hpp: the bid response.
use vanilla_rtb.Base.{ℕ, List, [], Text, ℤ, pos}
use vanilla_rtb.OpenRtb.Enums.{CreativeAttribute, NoBidReason, unknown_error}

pub record Bid : Type 0 where
  pub id : Text
  pub impid : Text
  pub price : ℕ
  pub adid : Text
  pub nurl : Text
  pub adm : Text
  pub adomain : List Text
  pub iurl : Text
  pub cid : Text
  pub crid : Text
  pub attr : List CreativeAttribute
  pub dealid : Text
  pub w : ℕ
  pub h : ℕ
  pub ext : Text

pub record SeatBid : Type 0 where
  pub bid : List Bid
  pub seat : Text
  pub group : ℤ
  pub ext : Text

pub record BidResponse : Type 0 where
  pub id : Text
  pub seatbid : List SeatBid
  pub bidid : Text
  pub cur : Text
  pub customdata : Text
  pub nbr : NoBidReason
  pub ext : Text

abbrev pub default_bid : Bid
default_bid = record {
  id = [];
  impid = [];
  price = 0;
  adid = [];
  nurl = [];
  adm = [];
  adomain = [];
  iurl = [];
  cid = [];
  crid = [];
  attr = [];
  dealid = [];
  w = 0;
  h = 0;
  ext = [];
}

abbrev pub default_seat_bid : SeatBid
default_seat_bid = record { bid = []; seat = []; group = pos 0; ext = [] }

-- BidResponse::clear
unfoldable pub clear : BidResponse → BidResponse
clear r = record r {
  id = [];
  seatbid = [];
  bidid = [];
  cur = [];
  customdata = [];
  nbr = unknown_error;
  ext = [];
}
