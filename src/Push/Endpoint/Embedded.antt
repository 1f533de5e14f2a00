-- ===== src/Push/Endpoint/Embedded.antt =====
-- No way of writing an internal IPv4 address as an IPv6 literal passes the guard.
use zeromux.Prelude.{
  ℕ, ◌+◌, ◌*◌, ◌<◌, ◌≡◌, refl, true, false, Option, some, Text, arith, ◌||◌, ◌==◌, String, ap, ◌∙◌,
}
use zeromux.Push.Endpoint.{
  Ipv4Addr, Ipv6Addr, Url, ipv6, ipv4_blocked, ipv6_blocked, endpoint_is_safe, url_is_safe, to_ipv4,
}

-- Mapped ::ffff:0:0/96, compatible ::/96, NAT64 64:ff9b::/96 and 6to4 2002::/16.
pub data Embedding : Type 0 where
  mapped compatible nat64 six_to_four : Embedding

pub record IsOctets (v4 : Ipv4Addr) : Type 0 where
  pub b0 : v4.o0 < 256
  pub b1 : v4.o1 < 256
  pub b2 : v4.o2 < 256
  pub b3 : v4.o3 < 256

abbrev pub segment : ℕ → ℕ → ℕ
segment hi lo = hi * 256 + lo

abbrev last_two : ℕ → ℕ → ℕ → Ipv4Addr → Ipv6Addr
last_two s0 s1 s5 v4 = record {
  s0 = s0;
  s1 = s1;
  s2 = 0;
  s3 = 0;
  s4 = 0;
  s5 = s5;
  s6 = segment v4.o0 v4.o1;
  s7 = segment v4.o2 v4.o3;
}

abbrev pub embed : Embedding → Ipv4Addr → Ipv6Addr
embed mapped v4 = last_two 0 0 0xffff v4
embed compatible v4 = last_two 0 0 0 v4
embed nat64 v4 = last_two 0x64 0xff9b 0 v4
embed six_to_four v4 = record {
  s0 = 0x2002;
  s1 = segment v4.o0 v4.o1;
  s2 = segment v4.o2 v4.o3;
  s3 = 0;
  s4 = 0;
  s5 = 0;
  s6 = 0;
  s7 = 0;
}

to_ipv4-mapped :
    (v4 : Ipv4Addr) (s5 : ℕ)
    → IsOctets v4
    → (s5 == 0 || s5 == 0xffff) ≡ true
    → to_ipv4 (last_two 0 0 s5 v4) ≡ some v4
unfolding to_ipv4
to_ipv4-mapped v4 s5 b h = ground arith

reclassified :
    (v4 : Ipv4Addr) (s5 : ℕ)
    → IsOctets v4
    → (s5 == 0 || s5 == 0xffff) ≡ true
    → ipv4_blocked v4 ≡ true
    → ipv6_blocked (last_two 0 0 s5 v4) ≡ true
unfolding ipv6_blocked
reclassified v4 s5 b h blocked = rw (to_ipv4-mapped v4 s5 b h, blocked) (ground arith)

-- An IPv4 address that is blocked is blocked in each of its IPv6 encodings.
embed-blocked :
    (e : Embedding) (v4 : Ipv4Addr)
    → IsOctets v4
    → ipv4_blocked v4 ≡ true
    → ipv6_blocked (embed e v4) ≡ true
unfolding ipv6_blocked
embed-blocked mapped v4 b blocked = reclassified v4 0xffff b refl blocked
embed-blocked compatible v4 b blocked = reclassified v4 0 b refl blocked
embed-blocked nat64 v4 b blocked = ground arith
embed-blocked six_to_four v4 b blocked = ground arith

url-refused :
    (scheme : String) (e : Embedding) (v4 : Ipv4Addr)
    → ipv6_blocked (embed e v4) ≡ true
    → url_is_safe (some (record { scheme = scheme; host = some (ipv6 (embed e v4)) })) ≡ false
unfolding url_is_safe
url-refused scheme e v4 h = ground (arith, h)

-- An endpoint whose host is an IPv6 literal that carries a blocked IPv4 address is refused, be it mapped,
-- compatible, NAT64 or 6to4, whatever its scheme.
pub embedded_ipv4_refused :
    (parse : Text → Option Url) (endpoint : Text) (scheme : String) (e : Embedding) (v4 : Ipv4Addr)
    → parse endpoint ≡ some (record { scheme = scheme; host = some (ipv6 (embed e v4)) })
    → IsOctets v4
    → ipv4_blocked v4 ≡ true
    → endpoint_is_safe parse endpoint ≡ false
unfolding endpoint_is_safe
embedded_ipv4_refused parse endpoint scheme e v4 p b blocked =
    ap url_is_safe p ∙ url-refused scheme e v4 (embed-blocked e v4 b blocked)
