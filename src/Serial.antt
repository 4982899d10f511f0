-- ===== src/Serial.antt =====
-- tools/uvk5_serial_flash.py: the serial framing, its reassembly, and the programming of an image.
pub mod Frame
pub mod Reassembly
pub mod Flasher
pub mod Handshake
