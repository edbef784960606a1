-- ===== src/Mdns/Avahi/Renamed.antt =====
-- mdns_avahi.cpp: the services of the publisher after the host was given another name.
