-- ===== src/Examples.antt =====
-- The theorems of the library at concrete inputs.
mod Hardware
mod Screen
mod Trees
mod Firmware
mod Audit
mod Image
mod Network
mod Release
mod Publication
mod Doctor
mod Initramfs
