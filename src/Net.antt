-- ===== src/Net.antt =====
-- The network programs, and bpf/include/vmlinux_net.h: where the headers of a packet lie.
pub mod Headers
pub mod Dropwatch
pub mod Netrecvlat
pub mod Devices
