-- ===== src/Outbound/Policy.antt =====
-- `validateOutboundUrlForSurface` of outbound-url-policy.ts, with the URL parser and `net.isIP` as
-- parameters.
use closedloop_electron.Base.{
  ℕ, Bool, true, false, ◌&&◌, ◌||◌, Option, none, some, Text, text, same, is_empty, or_else,
  if◌then◌else◌,
}
use closedloop_electron.Outbound.Hosts.{
  DestinationClass, invalid, external, s3_virtual_hosted, s3_path_style, loopback, metadata,
  link_local, private_address, ip_literal, is_virtual_hosted, is_path_style, normalize_hostname,
  classify_hostname,
}

-- `OutboundNetworkSurface`
pub data Surface : Type 0 where
  loop_attachment_download loop_support_upload deploy_health_check : Surface

-- `OutboundNetworkDecisionReason`
pub data Reason : Type 0 where
  allowed invalid_url credentialed_url unsupported_protocol : Reason
  metadata_address_not_allowed link_local_address_not_allowed private_address_not_allowed : Reason
  ip_literal_not_allowed path_style_s3_not_allowed attachment_host_not_allowed : Reason
  deploy_host_not_allowed : Reason

-- The parts of a `URL` that the policy reads.
pub record Url : Type 0 where
  pub protocol : Text
  pub username : Text
  pub password : Text
  pub hostname : Text
  pub port : Text

-- `UrlDescriptor`
pub record Descriptor : Type 0 where
  pub protocol : Text
  pub hostname : Text
  pub port : Option Text

-- `OutboundUrlPolicyDecision`
pub record Decision : Type 0 where
  pub is_allowed : Bool
  pub surface : Surface
  pub reason : Reason
  pub destination_class : DestinationClass
  pub descriptor : Option Descriptor

abbrev allow : Surface → DestinationClass → Option Descriptor → Decision
allow surface class descriptor = record {
  is_allowed = true;
  surface = surface;
  reason = allowed;
  destination_class = class;
  descriptor = descriptor;
}

abbrev deny : Surface → Reason → DestinationClass → Option Descriptor → Decision
deny surface reason class descriptor = record {
  is_allowed = false;
  surface = surface;
  reason = reason;
  destination_class = class;
  descriptor = descriptor;
}

abbrev pub descriptor_from_url : Url → Descriptor
descriptor_from_url u = record {
  protocol = u.protocol;
  hostname = normalize_hostname u.hostname;
  port = if is_empty u.port then none else some u.port;
}

unfoldable pub deny_reason_for_address_class : DestinationClass → Option Reason
deny_reason_for_address_class metadata = some metadata_address_not_allowed
deny_reason_for_address_class private_address = some private_address_not_allowed
deny_reason_for_address_class link_local = some link_local_address_not_allowed
deny_reason_for_address_class loopback = some ip_literal_not_allowed
deny_reason_for_address_class ip_literal = some ip_literal_not_allowed
deny_reason_for_address_class _ = none

abbrev deny_reason_for_deploy_host_class : DestinationClass → Reason
deny_reason_for_deploy_host_class class =
    or_else (deny_reason_for_address_class class) deploy_host_not_allowed

abbrev pub is_loopback : DestinationClass → Bool
is_loopback loopback = true
is_loopback _ = false

module _ (parse : Text → Option Url) (is_ip : Text → ℕ) where
  abbrev attachment_host : Surface → Text → DestinationClass → Option Descriptor → Decision
  attachment_host surface hostname class d =
      if is_path_style hostname
      then deny surface path_style_s3_not_allowed s3_path_style d
      else if is_virtual_hosted hostname
      then allow surface s3_virtual_hosted d
      else deny surface attachment_host_not_allowed class d

  unfoldable pub validate_attachment_url : Surface → Url → Option Descriptor → Decision
  unfolding deny_reason_for_address_class
  validate_attachment_url surface u d =
      if same u.protocol (text "https:")
      then (elim (deny_reason_for_address_class (classify_hostname is_ip u.hostname)) [
        | some reason ↦ deny surface reason (classify_hostname is_ip u.hostname) d
        | none ↦
            attachment_host surface (normalize_hostname u.hostname)
              (classify_hostname is_ip u.hostname) d
      ])
      else deny surface unsupported_protocol external d

  unfoldable pub validate_deploy_health_url : Surface → Url → Option Descriptor → Decision
  unfolding deny_reason_for_address_class
  validate_deploy_health_url surface u d =
      if same u.protocol (text "http:") || same u.protocol (text "https:")
      then (if is_loopback (classify_hostname is_ip u.hostname)
          then allow surface loopback d
          else deny surface (deny_reason_for_deploy_host_class (classify_hostname is_ip u.hostname))
              (classify_hostname is_ip u.hostname) d)
      else deny surface unsupported_protocol external d

  abbrev validate_surface : Surface → Url → Option Descriptor → Decision
  validate_surface loop_attachment_download = validate_attachment_url loop_attachment_download
  validate_surface loop_support_upload = validate_attachment_url loop_support_upload
  validate_surface deploy_health_check = validate_deploy_health_url deploy_health_check

  abbrev pub validate_parsed : Surface → Url → Decision
  validate_parsed surface u =
      if is_empty u.username && is_empty u.password
      then validate_surface surface u (some (descriptor_from_url u))
      else deny surface credentialed_url external (some (descriptor_from_url u))

  unfoldable pub validate_outbound_url_for_surface : Surface → Text → Decision
  unfolding validate_attachment_url validate_deploy_health_url
  validate_outbound_url_for_surface surface raw_url = elim (parse raw_url) [
    | none ↦ deny surface invalid_url invalid none
    | some u ↦ validate_parsed surface u
  ]
