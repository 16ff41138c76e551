-- ===== src/Wg.antt =====
-- daemon/wg: the WireGuard device as the daemon drives it. The device and the network stack are
-- outside; modelled are the packets that the daemon relays and the peers that it configures.
pub mod Relay
pub mod Peers
