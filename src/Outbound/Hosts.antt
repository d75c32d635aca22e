-- ===== src/Outbound/Hosts.antt =====
-- The hosts of outbound-url-policy.ts: its regular expressions and the classes of addresses. A
-- hostname comes from the URL parser, so it has no line terminator.
use closedloop_electron.Base.{
  ℕ, ◌+◌, ◌*◌, ◌-◌, Bool, false, ◌&&◌, ◌||◌, List, [], ◌∷◌, map, Text, text, same, starts_with,
  to_lower, reverse, drop, leb, ◌==◌, if◌then◌else◌,
}
use closedloop_electron.Loops.Tokens.{split_at}

-- `OutboundNetworkDestinationClass`
pub data DestinationClass : Type 0 where
  invalid external s3_virtual_hosted s3_path_style : DestinationClass
  loopback metadata link_local private_address ip_literal : DestinationClass

abbrev pub is_label_unit : ℕ → Bool
is_label_unit c = (leb b'a' c && leb c b'z') || (leb b'0' c && leb c b'9') || (c == b'-')

abbrev pub is_name_unit : ℕ → Bool
is_name_unit c = is_label_unit c || (c == b'.')

-- The rest after `[a-z0-9-]*`.
unfoldable pub skip_label : Text → Text
skip_label [] = []
skip_label (c ∷ s) = let rest = skip_label s in if is_label_unit c then rest else c ∷ s

-- `[a-z0-9-]+` and then the given end.
unfoldable pub ends_label : Text → Text → Bool
unfolding skip_label
ends_label end [] = false
ends_label end (c ∷ s) = is_label_unit c && same (skip_label s) end

abbrev pub amazon : Text
amazon = text ".amazonaws.com"

-- `[a-z0-9.-]*\.s3\.[a-z0-9-]+\.amazonaws\.com`
unfoldable pub has_bucket_end : Text → Bool
unfolding ends_label
has_bucket_end [] = false
has_bucket_end (c ∷ s) =
    let rest = has_bucket_end s in
    (starts_with (c ∷ s) (text ".s3.") && ends_label amazon (drop 3 s)) || (is_name_unit c && rest)

-- `S3_VIRTUAL_HOSTED_HOST_RE`
unfoldable pub is_virtual_hosted : Text → Bool
unfolding has_bucket_end
is_virtual_hosted [] = false
is_virtual_hosted (c ∷ s) =
    ((leb b'a' c && leb c b'z') || (leb b'0' c && leb c b'9')) && has_bucket_end s

abbrev path_style_end : Text → Bool
path_style_end [] = false
path_style_end (c ∷ s) =
    same (c ∷ s) amazon || (((c == b'.') || (c == b'-')) && ends_label amazon s)

-- `S3_PATH_STYLE_HOST_RE`
unfoldable pub is_path_style : Text → Bool
unfolding ends_label
is_path_style s = starts_with s (text "s3") && path_style_end (drop 2 s)

abbrev without_last : Text → Text → Text
without_last whole [] = whole
without_last whole (c ∷ r) = if c == b']' then reverse r else whole

abbrev without_brackets : Text → Text
without_brackets [] = []
without_brackets (c ∷ s) = if c == b'[' then without_last (c ∷ s) (reverse s) else c ∷ s

-- `normalizeHostname`
unfoldable pub normalize_hostname : Text → Text
normalize_hostname hostname = without_brackets (to_lower hostname)

-- `s.endsWith(p)`
unfoldable pub ends_with : Text → Text → Bool
ends_with s p = starts_with (reverse s) (reverse p)

-- `Number.parseInt(part, 10)` of a part that begins with a digit.
unfoldable pub parse_digits : ℕ → Text → ℕ
parse_digits n [] = n
parse_digits n (c ∷ s) =
    if leb b'0' c && leb c b'9' then parse_digits (10 * n + (c - b'0')) s else n

abbrev is_private : ℕ → ℕ → Bool
is_private first second =
    (first == 10)
    || ((first == 172) && leb 16 second && leb second 31)
    || ((first == 192) && (second == 168))

abbrev pub classify_octets : List ℕ → DestinationClass
classify_octets (first ∷ second ∷ third ∷ fourth ∷ rest) =
    if first == 127
    then loopback
    else if (first == 169) && (second == 254) && (third == 169) && (fourth == 254)
    then metadata
    else if (first == 169) && (second == 254)
    then link_local
    else if is_private first second
    then private_address
    else ip_literal
classify_octets _ = ip_literal

-- `classifyIpv4`, of an address of four decimal parts.
unfoldable pub classify_ipv4 : Text → DestinationClass
unfolding parse_digits split_at
classify_ipv4 hostname =
    classify_octets (map (λ part. parse_digits 0 part) (split_at b'.' hostname))

-- `classifyIpv6`
unfoldable pub classify_ipv6 : Text → DestinationClass
classify_ipv6 hostname =
    let lower = to_lower hostname in
    if same lower (text "::1") || same lower (text "0:0:0:0:0:0:0:1")
    then loopback
    else if starts_with lower (text "fe8") || starts_with lower (text "fe9")
    then link_local
    else if starts_with lower (text "fea") || starts_with lower (text "feb")
    then link_local
    else if starts_with lower (text "fc") || starts_with lower (text "fd")
    then private_address
    else ip_literal

abbrev pub is_localhost : Text → Bool
is_localhost h = same h (text "localhost") || ends_with h (text ".localhost")

-- `classifyHostname`, with `net.isIP`.
unfoldable pub classify_hostname : (Text → ℕ) → Text → DestinationClass
unfolding normalize_hostname ends_with classify_ipv4 classify_ipv6
classify_hostname is_ip hostname =
    let normalized = normalize_hostname hostname in
    if is_localhost normalized
    then loopback
    else if is_ip normalized == 4
    then classify_ipv4 normalized
    else if is_ip normalized == 6
    then classify_ipv6 normalized
    else external
