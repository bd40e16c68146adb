-- ===== src/OpenRtb/Request.antt =====
-- rtb/core/openrtb.hpp: the bid request.
use vanilla_rtb.Base.{Bool, List, Option, Text, ℤ}
use vanilla_rtb.OpenRtb.Enums.{AuctionType, GeoType}
use vanilla_rtb.OpenRtb.Media.{Banner, Video, Native}

pub record Publisher : Type 0 where
  pub id : Text
  pub name : Text
  pub cat : List Text
  pub domain : Text
  pub ext : Text

pub record Context : Type 0 where
  pub name : Text
  pub domain : Text
  pub cat : List Text
  pub sectioncat : List Text
  pub pagecat : List Text
  pub privacypolicy : Bool
  pub publisher : Option Publisher
  pub keywords : List Text
  pub ext : Text

pub record SiteImpl : Type 0 where
  pub page : Text
  pub ref : Text

-- The base classes are the fields `context` and `impl`.
pub record Site : Type 0 where
  pub context : Context
  pub open context use *
  pub impl : SiteImpl
  pub open impl use *
  pub id : Text

pub record Geo : Type 0 where
  pub lat : ℤ
  pub lon : ℤ
  pub type : GeoType
  pub utcoffset : ℤ
  pub city : Text
  pub country : Text
  pub region : Text
  pub regionfips104 : Text
  pub metro : Text
  pub zip : Text
  pub ext : Text

pub record UserDataSegment : Type 0 where
  pub id : Text
  pub name : Text
  pub value : Text
  pub ext : Text

pub record UserData : Type 0 where
  pub id : Text
  pub name : Text
  pub segment : List UserDataSegment
  pub ext : Text

-- `data` is a reserved word: the field is `user_data`.
pub record User : Type 0 where
  pub yob : ℤ
  pub id : Text
  pub buyeruid : Text
  pub gender : Text
  pub keywords : Text
  pub customdata : Text
  pub geo : Option Geo
  pub user_data : List UserData
  pub ext : Text

-- The structures App, Device, PMP and Regulations are empty: a member of such a type is a flag.
pub record Impression : Type 0 where
  pub id : Text
  pub banner : Option Banner
  pub video : Option Video
  pub native : Option Native
  pub displaymanager : Text
  pub displaymanagerver : Text
  pub instl : Bool
  pub tagid : Text
  pub bidfloor : ℤ
  pub bidfloorcur : Text
  pub secure : ℤ
  pub iframebuster : List Text
  pub pmp : Bool
  pub ext : Text

pub record BidRequest : Type 0 where
  pub id : Text
  pub imp : List Impression
  pub site : Option Site
  pub app : Bool
  pub device : Bool
  pub user : Option User
  pub at : AuctionType
  pub tmax : ℤ
  pub wseat : List Text
  pub allimps : Bool
  pub cur : List Text
  pub bcat : List Text
  pub badv : List Text
  pub regs : Bool
  pub ext : Text
  pub unparseable : Text
