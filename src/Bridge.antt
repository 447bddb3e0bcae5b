-- ===== src/Bridge.antt =====
-- The Wi-Fi bridge's core (wifi-bridge/components/bridge_core): its control protocol, who may use
-- it, what is forwarded between the cable and the radio, and the order of an update's chunks.
pub mod Wire
pub mod Pairing
pub mod Forward
pub mod SetWifi
pub mod Ota
pub mod FwSig
pub mod Update
pub mod Requests
pub mod Control
