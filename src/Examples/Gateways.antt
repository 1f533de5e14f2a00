-- ===== src/Examples/Gateways.antt =====
-- The theorems on the crew and the codex fan-out, at a queued prompt.
use zeromux.ClaudeFanout.Loop as CLoop
use zeromux.ClaudeFanout.State as CState
use zeromux.Examples.Data.{config, queued_run}
use zeromux.GatewayFanout.Input.{rounds}
use zeromux.GatewayFanout.Invariant.{Inv, gateway-Inv}
use zeromux.GatewayFanout.Parity.{Together}
use zeromux.GatewayFanout.Parity.Rounds.{gateway_parity}
use zeromux.GatewayFanout.State.{Settings, crew_gateway, init}
use zeromux.Prelude.{refl, none}

abbrev settings : Settings
settings = record {
  backend = crew_gateway;
  sid = "s1";
  agent_label = "crew";
  work_dir = "/w";
  hhmm = λ ms. none;
}

gateway-Inv_example : Inv (rounds settings queued_run init).0
gateway-Inv_example = gateway-Inv settings queued_run

gateway_parity_example :
    Together (CLoop.rounds config queued_run (CState.init config)) (rounds settings queued_run init)
gateway_parity_example = gateway_parity config settings queued_run refl refl
