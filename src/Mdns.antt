-- ===== src/Mdns.antt =====
-- lib/borderrouter/src/agent: the publishers of the border agent's service, over a system's daemon.
pub mod Mdnssd
pub mod Avahi
pub mod Poller
