-- ===== src/Push/Endpoint.antt =====
-- The SSRF guard of src/push.rs, `endpoint_is_safe`. The parser of URLs is the crate `url`, a
-- parameter.
pub mod Embedded
use zeromux.Prelude.{
  ℕ, ◌+◌, ◌*◌, ◌/◌, ◌%◌, String, Bool, true, false, not, ◌&&◌, ◌||◌, Option, none, some, List, [],
  ◌∷◌, map, Text, codes, text_eq, ends_with, leb, ◌==◌, if◌then◌else◌, str_eq, is_empty,
}

pub record Ipv4Addr : Type 0 where
  pub o0 : ℕ
  pub o1 : ℕ
  pub o2 : ℕ
  pub o3 : ℕ

-- The eight 16-bit segments.
pub record Ipv6Addr : Type 0 where
  pub s0 : ℕ
  pub s1 : ℕ
  pub s2 : ℕ
  pub s3 : ℕ
  pub s4 : ℕ
  pub s5 : ℕ
  pub s6 : ℕ
  pub s7 : ℕ

is_private : Ipv4Addr → Bool
is_private v4 =
    v4.o0 == 10 || v4.o0 == 172 && (leb 16 v4.o1 && leb v4.o1 31) || v4.o0 == 192 && v4.o1 == 168

-- A mask that keeps the high bits of an octet or a segment is a division.
unfoldable pub ipv4_blocked : Ipv4Addr → Bool
unfolding is_private
ipv4_blocked v4 =
    v4.o0 == 127
    || is_private v4
    || v4.o0 == 169 && v4.o1 == 254
    || v4.o0 == 0 && v4.o1 == 0 && v4.o2 == 0 && v4.o3 == 0
    || v4.o0 == 255 && v4.o1 == 255 && v4.o2 == 255 && v4.o3 == 255
    || v4.o0 == 100 && v4.o1 / 64 == 1

abbrev high_zero : Ipv6Addr → Bool
high_zero v6 = v6.s0 == 0 && v6.s1 == 0 && v6.s2 == 0 && v6.s3 == 0 && v6.s4 == 0

is_loopback : Ipv6Addr → Bool
is_loopback v6 = high_zero v6 && v6.s5 == 0 && v6.s6 == 0 && v6.s7 == 1

is_unspecified : Ipv6Addr → Bool
is_unspecified v6 = high_zero v6 && v6.s5 == 0 && v6.s6 == 0 && v6.s7 == 0

-- `Ipv6Addr::to_ipv4`: the mapped and the compatible form.
to_ipv4 : Ipv6Addr → Option Ipv4Addr
to_ipv4 v6 =
    if high_zero v6 && (v6.s5 == 0 || v6.s5 == 0xffff)
    then some record { o0 = v6.s6 / 256; o1 = v6.s6 % 256; o2 = v6.s7 / 256; o3 = v6.s7 % 256 }
    else none

-- fc00::/7, fe80::/10, 2002::/16, 64:ff9b::/32 and fec0::/10.
in_blocked_range : Ipv6Addr → Bool
in_blocked_range v6 =
    v6.s0 / 512 == 126
    || v6.s0 / 64 == 1018
    || v6.s0 == 0x2002
    || v6.s0 == 0x64 && v6.s1 == 0xff9b
    || v6.s0 / 64 == 1019

unfoldable pub ipv6_blocked : Ipv6Addr → Bool
unfolding is_loopback is_unspecified in_blocked_range to_ipv4 ipv4_blocked
ipv6_blocked v6 =
    is_loopback v6
    || is_unspecified v6
    || in_blocked_range v6
    || elim (to_ipv4 v6) [ none ↦ false | some v4 ↦ ipv4_blocked v4 ]

pub data Host : Type 0 where
  domain : Text → Host
  ipv4 : Ipv4Addr → Host
  ipv6 : Ipv6Addr → Host

pub record Url : Type 0 where
  pub scheme : String
  pub host : Option Host

-- One dot at the end.
strip_dot : Text → Text
strip_dot [] = []
strip_dot (c ∷ cs) = let rest = strip_dot cs in if is_empty cs && c == 0x2e then [] else c ∷ rest

to_ascii_lowercase : Text → Text
to_ascii_lowercase = map (λ c. if leb 0x41 c && leb c 0x5a then c + 32 else c)

domain_is_safe : Text → Bool
unfolding strip_dot to_ascii_lowercase
domain_is_safe d =
    let name = to_ascii_lowercase (strip_dot d) in
    not (text_eq name (codes "localhost") || ends_with (codes ".localhost") name)

host_is_safe : Option Host → Bool
unfolding domain_is_safe ipv4_blocked ipv6_blocked
host_is_safe none = false
host_is_safe (some (domain d)) = domain_is_safe d
host_is_safe (some (ipv4 v4)) = not (ipv4_blocked v4)
host_is_safe (some (ipv6 v6)) = not (ipv6_blocked v6)

-- A text that is no URL is refused.
unfoldable pub url_is_safe : Option Url → Bool
unfolding host_is_safe
url_is_safe none = false
url_is_safe (some url) = str_eq url.scheme "https" && host_is_safe url.host

unfoldable pub endpoint_is_safe : (Text → Option Url) → Text → Bool
unfolding url_is_safe
endpoint_is_safe parse endpoint = url_is_safe (parse endpoint)
