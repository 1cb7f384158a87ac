-- ===== src/Capture.antt =====
-- From a packet to the message of the loader: ebpf-common/src/lib.rs, ebpf/src/main.rs and
-- ebpf-loader/src/loader/ebpf_loader.rs.
pub mod Utf8
pub mod Parse
pub mod Filter
pub mod Loader
pub mod Delivery
pub mod Tests
