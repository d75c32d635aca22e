-- ===== src/Outbound/Tests.antt =====
-- Decisions on URLs.
use closedloop_electron.Base.{
  ℕ, ◌≡◌, refl, true, Option, some, [], Text, text, same, starts_with, to_lower,
}
use closedloop_electron.Outbound.Hosts.{
  skip_label, ends_label, has_bucket_end, is_virtual_hosted, is_path_style, normalize_hostname,
  ends_with, classify_hostname, classify_ipv4, parse_digits,
}
use closedloop_electron.Outbound.Policy.{
  Url, loop_attachment_download, loop_support_upload, validate_outbound_url_for_surface,
  validate_attachment_url, deny_reason_for_address_class, metadata_address_not_allowed,
}
use closedloop_electron.Outbound.Allowed.{IsBucketUrl, validate_outbound_url_for_surface-attachment}
use closedloop_electron.Loops.Tokens.{split_at}

abbrev bucket : Url
bucket = record {
  protocol = text "https:";
  username = [];
  password = [];
  hostname = text "b.s3.eu-1.amazonaws.com";
  port = [];
}

-- No host is an address.
abbrev named : Text → ℕ
named h = 0

bucket-allowed :
    (validate_outbound_url_for_surface
      (λ _. some bucket)
      named
      loop_support_upload
      (text "u")).is_allowed
    ≡ true
unfolding validate_outbound_url_for_surface validate_attachment_url deny_reason_for_address_class
    same starts_with to_lower normalize_hostname ends_with classify_hostname is_path_style
    is_virtual_hosted has_bucket_end ends_label skip_label
bucket-allowed = refl

validate_outbound_url_for_surface-attachment_example :
    (u : Url) × (◌≡◌ {A = Option Url} (some bucket) (some u))
    × IsBucketUrl (λ _. some bucket) named u
validate_outbound_url_for_surface-attachment_example =
    validate_outbound_url_for_surface-attachment (λ _. some bucket) named loop_support_upload
      (text "u") refl bucket-allowed

-- The address of a cloud's metadata is refused by name.
test_metadata :
    (validate_outbound_url_for_surface
      (λ _. some (record bucket { hostname = text "169.254.169.254" }))
      (λ _. 4)
      loop_attachment_download
      (text "u")).reason
    ≡ metadata_address_not_allowed
unfolding validate_outbound_url_for_surface validate_attachment_url deny_reason_for_address_class
    same starts_with to_lower normalize_hostname ends_with classify_hostname classify_ipv4
    parse_digits split_at
test_metadata = refl
