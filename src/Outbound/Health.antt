-- ===== src/Outbound/Health.antt =====
-- Which URLs outbound-url-policy.ts lets out for a health check.
use closedloop_electron.Base.{
  ℕ, ◌≡◌, refl, ◌↔◌, inl, inr, true, ◌||◌, Option, some, Text, text, same, is_empty, arith,
  Option-cases,
}
use closedloop_electron.Outbound.Hosts.{
  DestinationClass, invalid, external, s3_virtual_hosted, s3_path_style, loopback, metadata,
  link_local, private_address, ip_literal, classify_hostname,
}
use closedloop_electron.Outbound.Policy.{
  validate_parsed, deploy_health_check, Url, is_loopback, validate_deploy_health_url,
  validate_outbound_url_for_surface,
}

loopback-of_is_loopback : (c : DestinationClass) → is_loopback c ≡ true → c ≡ loopback
loopback-of_is_loopback loopback h = refl
loopback-of_is_loopback invalid h = cc
loopback-of_is_loopback external h = cc
loopback-of_is_loopback s3_virtual_hosted h = cc
loopback-of_is_loopback s3_path_style h = cc
loopback-of_is_loopback metadata h = cc
loopback-of_is_loopback link_local h = cc
loopback-of_is_loopback private_address h = cc
loopback-of_is_loopback ip_literal h = cc

module _ (parse : Text → Option Url) (is_ip : Text → ℕ) where
  -- A URL without credentials, over HTTP or TLS, to this computer.
  abbrev pub IsHealthUrl : Url → Type 0
  IsHealthUrl u =
      (is_empty u.username ≡ true)
      × (is_empty u.password ≡ true)
      × ((same u.protocol (text "http:") || same u.protocol (text "https:")) ≡ true)
      × (classify_hostname is_ip u.hostname ≡ loopback)

  health-IsHealthUrl :
      (u : Url)
      → (validate_parsed parse is_ip deploy_health_check u).is_allowed ≡ true
      → IsHealthUrl u
  unfolding validate_deploy_health_url
  health-IsHealthUrl u h = (
    ground arith,
    ground arith,
    ground arith,
    loopback-of_is_loopback (classify_hostname is_ip u.hostname) (ground arith),
  )

  health_allowed :
      (u : Url)
      → IsHealthUrl u
      → (validate_parsed parse is_ip deploy_health_check u).is_allowed ≡ true
  unfolding validate_deploy_health_url
  health_allowed u (e, f, g, c) = ground arith

  -- A URL is allowed for a health check exactly if it is parsed, has no credentials, is over HTTP or
  -- TLS, and its host is of the class of this computer.
  pub validate_outbound_url_for_surface-health_iff :
      (raw : Text)
      → ((validate_outbound_url_for_surface parse is_ip deploy_health_check raw).is_allowed ≡ true)
        ↔ ((u : Url) × (parse raw ≡ some u) × IsHealthUrl u)
  unfolding validate_outbound_url_for_surface
  validate_outbound_url_for_surface-health_iff raw = (
    (λ h. elim (Option-cases (parse raw)) [
      | inl e ↦ absurd (ground arith)
      | inr (u, e) ↦ (u, e, health-IsHealthUrl u (ground arith))
    ]),
    (λ (u, e, k). ground (arith, health_allowed u k)),
  )
