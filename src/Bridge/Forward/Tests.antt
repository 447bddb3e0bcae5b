-- ===== src/Bridge/Forward/Tests.antt =====
-- A pod that is known, and frames from it and from another address.
use benchpod_firmware.Base.{refl, true, false, List, [], ◌∷◌, ◌++◌, All, Bytes}
use benchpod_firmware.Bridge.Forward.{Forwarder, no_reason}
use benchpod_firmware.Bridge.Forward.Learn.{
  PortOp, eth_frame, wifi_frame, Passed, trace, trace-Passed,
}

abbrev a_forwarder : Forwarder
a_forwarder = record {
  bridge_mac = 2 ∷ 0 ∷ 0 ∷ 0 ∷ 0 ∷ 9 ∷ [];
  pod_mac = 2 ∷ 0 ∷ 0 ∷ 0 ∷ 0 ∷ 1 ∷ [];
  pod_known = true;
  relearn = false;
  last_why = no_reason;
}

abbrev from_pod : Bytes
from_pod = (2 ∷ 0 ∷ 0 ∷ 0 ∷ 0 ∷ 3 ∷ []) ++ ((2 ∷ 0 ∷ 0 ∷ 0 ∷ 0 ∷ 1 ∷ []) ++ (8 ∷ 0 ∷ []))

abbrev to_pod : Bytes
to_pod = (2 ∷ 0 ∷ 0 ∷ 0 ∷ 0 ∷ 1 ∷ []) ++ ((2 ∷ 0 ∷ 0 ∷ 0 ∷ 0 ∷ 3 ∷ []) ++ (8 ∷ 0 ∷ []))

abbrev some_frames : List PortOp
some_frames = eth_frame from_pod true ∷ wifi_frame to_pod ∷ eth_frame to_pod true ∷ []

trace-Passed_example : All (Passed a_forwarder.pod_mac) (trace some_frames a_forwarder)
trace-Passed_example =
    trace-Passed some_frames a_forwarder
      ((λ e. absurd (cc)), ((λ e. absurd (cc)), ((λ e. absurd (cc)), tt))) refl refl
