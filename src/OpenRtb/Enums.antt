-- ===== src/OpenRtb/Enums.antt =====
-- rtb/core/openrtb.hpp: the enumerations.
use vanilla_rtb.Base.{ℕ}

pub data AuctionType : Type 0 where
  first_price second_price undefined : AuctionType

-- A cast can give a byte that has no enumerator.
pub data AdPosition : Type 0 where
  unknown above between_deprecated below header footer sidebar fullscreen undefined : AdPosition
  unnamed : ℕ → AdPosition

pub data BannerAdType : Type 0 where
  undefined xhtml_text xhtml_banner javascript iframe : BannerAdType

pub data CreativeAttribute : Type 0 where
  undefined audio_ad_auto_play audio_ad_user_initiated expandable_automatic : CreativeAttribute
  expandable_user_initiated_click expandable_user_initiated_rollover : CreativeAttribute
  in_banner_video_ad_auto_play in_banner_video_ad_user_initiated pop : CreativeAttribute
  provocative_or_suggestive_imagery : CreativeAttribute
  shaky_flashing_flickering_extreme_animation_smileys : CreativeAttribute
  surveys text_only user_interactive windows_dialog_or_alert_style : CreativeAttribute
  has_audio_on_off_button ad_can_be_skipped : CreativeAttribute

pub data FramePosition : Type 0 where
  undefined iframe top_frame : FramePosition

pub data ExpandableDirection : Type 0 where
  undefined left right up down fullscreen : ExpandableDirection

pub data ApiFramework : Type 0 where
  undefined vpaid_1 vpaid_2 mraid ormma mraid2 : ApiFramework

pub data NoBidReason : Type 0 where
  unspecified unknown_error technical_error invalid_request known_web_spider : NoBidReason
  suspected_non_human_traffic cloud_datacenter_or_proxy_ip unsupported_device : NoBidReason
  blocked_publisher_or_site unmatched_user : NoBidReason

pub data Protocol : Type 0 where
  unknown vast_1_0 vast_2_0 vast_3_0 vast_1_0_wrapper vast_2_0_wrapper : Protocol
  vast_3_0_wrapper vast_4_0 vast_4_0_wrapper daast_1_0 daast_1_0_wrapper : Protocol

pub data VideoPlacement : Type 0 where
  unknown in_stream in_banner in_article in_feed floating : VideoPlacement

pub data PlaybackMethod : Type 0 where
  unknown on_page_sound_on on_page_sound_off on_click_sound_on on_mover_sound_on : PlaybackMethod
  on_viewport_sound_on on_viewport_sound_off : PlaybackMethod

pub data PlaybackCessationModes : Type 0 where
  unknown compleetion viewport floating : PlaybackCessationModes

pub data DeliveryMethod : Type 0 where
  unknown streaming progressive download : DeliveryMethod

pub data CompanionType : Type 0 where
  unknown static html iframe : CompanionType

pub data GeoType : Type 0 where
  undefined gps ip user : GeoType
