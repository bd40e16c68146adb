-- ===== src/OpenRtb/Media.antt =====
-- rtb/core/openrtb.hpp: what an impression can show.
use vanilla_rtb.Base.{ℕ, List, Option, Text, ℤ}
use vanilla_rtb.OpenRtb.Enums.{
  AdPosition, BannerAdType, CreativeAttribute, FramePosition, ExpandableDirection, ApiFramework,
  Protocol, VideoPlacement, PlaybackMethod, PlaybackCessationModes, DeliveryMethod, CompanionType,
}

pub record MimeType : Type 0 where
  pub type : Text

pub record Banner : Type 0 where
  pub w : ℕ
  pub h : ℕ
  pub wmax : Option ℤ
  pub hmax : Option ℤ
  pub wmin : Option ℤ
  pub hmin : Option ℤ
  pub id : Text
  pub pos : AdPosition
  pub btype : List BannerAdType
  pub battr : List CreativeAttribute
  pub mimes : List MimeType
  pub topframe : FramePosition
  pub expdir : List ExpandableDirection
  pub api : List ApiFramework
  pub ext : Text

-- VideoLinearity has no enumerator, so `linearity` is left out.
pub record Video : Type 0 where
  pub mimes : List MimeType
  pub minduration : ℕ
  pub maxduration : ℕ
  pub protocols : List Protocol
  pub protocol : Protocol
  pub w : ℕ
  pub h : ℕ
  pub startdelay : ℕ
  pub placement : VideoPlacement
  pub skip : ℕ
  pub skipmin : ℕ
  pub skipafter : ℕ
  pub sequence : ℕ
  pub battr : List CreativeAttribute
  pub maxextended : ℤ
  pub minbitrate : ℕ
  pub maxbitrate : ℕ
  pub boxingallowed : ℕ
  pub playbackmethod : List PlaybackMethod
  pub playbackend : PlaybackCessationModes
  pub delivery : DeliveryMethod
  pub pos : AdPosition
  pub companiontype : CompanionType
  pub ext : Text

pub record Native : Type 0 where
  pub request : Text
  pub ver : Text
  pub api : List ApiFramework
  pub battr : List CreativeAttribute
  pub ext : Text
