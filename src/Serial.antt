-- ===== src/Serial.antt =====
-- src/serial_tcp_win.c: the TCP bridge behind the firmware's serial ports.
pub mod Ring
pub mod Port
pub mod Server
