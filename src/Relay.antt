-- ===== src/Relay.antt =====
-- ppp/lib_component/relay_local_device_service: the devices of the machine itself.
pub mod Devices
pub mod Connections
mod Tests
