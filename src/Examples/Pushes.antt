-- ===== src/Examples/Pushes.antt =====
-- The theorems on push notifications, at two users and one device each.
use zeromux.Prelude.{
  ℕ, ◌≡◌, refl, true, false, Option, some, List, [], ◌∷◌, Text, codes, arith, String,
}
use zeromux.Push.Debounce.{turn_done, run_done, looks}
use zeromux.Push.Debounce.Spacing.{Step, marked, forgotten, after, looks-last_told}
use zeromux.Push.Endpoint.{Ipv4Addr, Url, ipv6, domain, ipv4_blocked, endpoint_is_safe}
use zeromux.Push.Endpoint.Embedded.{embed, nat64, embedded_ipv4_refused}
use zeromux.Push.Table.{Subscription, Request, subscribe, answered, gone, serve}
use zeromux.Push.Table.Isolation.{others, others-serve}

-- The address of the cloud's metadata service.
abbrev metadata : Ipv4Addr
metadata = record { o0 = 169; o1 = 254; o2 = 169; o3 = 254 }

abbrev parse_nat64 : Text → Option Url
parse_nat64 endpoint = some (record { scheme = "https"; host = some (ipv6 (embed nat64 metadata)) })

abbrev parse_push : Text → Option Url
parse_push endpoint =
    some (record { scheme = "https"; host = some (domain (codes "push.example")) })

abbrev device : String → ℕ → Subscription
device user ms = record {
  endpoint = codes "https://push.example/1";
  user_id = user;
  p256dh = "k";
  auth = "a";
  created_ms = ms;
  lvl_important = true;
  lvl_routine = true;
}

embedded_ipv4_refused_example :
    endpoint_is_safe parse_nat64 (codes "https://[64:ff9b::a9fe:a9fe]") ≡ false
unfolding ipv4_blocked
embedded_ipv4_refused_example =
    embedded_ipv4_refused parse_nat64 (codes "https://[64:ff9b::a9fe:a9fe]") "https" nat64 metadata
      refl (record { b0 = omega arith; b1 = omega arith; b2 = omega arith; b3 = omega arith }) refl

-- Another user registers the endpoint of the first.
others-serve_example :
    others "b" (serve parse_push (subscribe (device "b" 2)) (device "a" 1 ∷ []))
    ≡ others "b" (device "a" 1 ∷ [])
others-serve_example = others-serve parse_push (subscribe (device "b" 2)) (device "a" 1 ∷ [])

abbrev requests : List Request
requests =
    subscribe (device "a" 1)
    ∷ subscribe (device "b" 2)
    ∷ answered "a" (codes "https://push.example/1") gone
    ∷ []

-- Marked for a run, then removed, and marked again.
abbrev marks_before : List Step
marks_before =
    marked run_done "a" "s" 90000 ∷ forgotten "s" ∷ marked (turn_done 60000) "a" "s" 60000 ∷ []

looks-last_told_example : looks run_done "a" "s" 110000 (after marks_before) ≡ false
looks-last_told_example =
    looks-last_told run_done "a" "s" 110000 marks_before (omega arith, (tt, (omega arith, tt)))
