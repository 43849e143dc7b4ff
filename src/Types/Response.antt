-- ===== src/Types/Response.antt =====
-- crates/rdap-types/src: domain.rs, ip.rs, asn.rs, nameserver.rs, entity.rs and availability.rs.
use rdapify.Base.{ℕ, Bool, true, false, Option, List, find, any}
use rdapify.Base.Text.{Text, text, text_eq}
use rdapify.Base.Optional.{map_some}
use rdapify.Core.Validation.{Value}
use rdapify.Types.Common.{
  RdapStatus, active, RdapRole, RdapEvent, RdapLink, RdapRemark, RdapEntity, ResponseMeta,
}

pub record RegistrarSummary : Type 0 where
  pub name : Option Text
  pub handle : Option Text
  pub url : Option Text
  pub abuse_email : Option Text
  pub abuse_phone : Option Text

pub record DomainResponse : Type 0 where
  pub query : Text
  pub ldh_name : Option Text
  pub unicode_name : Option Text
  pub handle : Option Text
  pub status : List RdapStatus
  pub nameservers : List Text
  pub registrar : Option RegistrarSummary
  pub entities : List RdapEntity
  pub events : List RdapEvent
  pub links : List RdapLink
  pub remarks : List RdapRemark
  pub meta : ResponseMeta

-- `expiration_date` and `registration_date`.
abbrev date_of : Text → DomainResponse → Option Text
date_of action response =
    map_some (λ (e : RdapEvent). e.event_date)
      (find (λ (e : RdapEvent). text_eq e.event_action action) response.events)

unfoldable pub expiration_date : DomainResponse → Option Text
expiration_date response = date_of (text "expiration") response

unfoldable pub registration_date : DomainResponse → Option Text
registration_date response = date_of (text "registration") response

abbrev status_is_active : RdapStatus → Bool
status_is_active active = true
status_is_active _ = false

unfoldable pub is_active : DomainResponse → Bool
is_active response = any status_is_active response.status

pub data IpVersion : Type 0 where
  v4 v6 : IpVersion

pub record IpResponse : Type 0 where
  pub query : Text
  pub handle : Option Text
  pub start_address : Option Text
  pub end_address : Option Text
  pub ip_version : Option IpVersion
  pub name : Option Text
  pub allocation_type : Option Text
  pub country : Option Text
  pub parent_handle : Option Text
  pub status : List RdapStatus
  pub entities : List RdapEntity
  pub events : List RdapEvent
  pub links : List RdapLink
  pub remarks : List RdapRemark
  pub meta : ResponseMeta

-- The numbers are `u32`.
pub record AsnResponse : Type 0 where
  pub query : ℕ
  pub handle : Option Text
  pub start_autnum : Option ℕ
  pub end_autnum : Option ℕ
  pub name : Option Text
  pub autnum_type : Option Text
  pub country : Option Text
  pub status : List RdapStatus
  pub entities : List RdapEntity
  pub events : List RdapEvent
  pub links : List RdapLink
  pub remarks : List RdapRemark
  pub meta : ResponseMeta

pub record NameserverIpAddresses : Type 0 where
  pub v4 : List Text
  pub v6 : List Text

pub record NameserverResponse : Type 0 where
  pub query : Text
  pub handle : Option Text
  pub ldh_name : Option Text
  pub unicode_name : Option Text
  pub ip_addresses : NameserverIpAddresses
  pub status : List RdapStatus
  pub entities : List RdapEntity
  pub events : List RdapEvent
  pub links : List RdapLink
  pub remarks : List RdapRemark
  pub meta : ResponseMeta

pub record EntityResponse : Type 0 where
  pub query : Text
  pub handle : Option Text
  pub vcard_array : Option Value
  pub roles : List RdapRole
  pub status : List RdapStatus
  pub entities : List RdapEntity
  pub events : List RdapEvent
  pub links : List RdapLink
  pub remarks : List RdapRemark
  pub meta : ResponseMeta

pub record AvailabilityResult : Type 0 where
  pub domain : Text
  pub available : Bool
  pub expires_at : Option Text
