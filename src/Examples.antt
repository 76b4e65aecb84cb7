-- ===== src/Examples.antt =====
-- The theorems at concrete inputs, by the part that they are about.
mod Config
mod Aura
mod Clients
mod Connection
mod Data
mod Firmware
mod ParentalControl
mod Registry
mod Service
mod State
mod StaticDhcp
mod Tools
mod Vpn
