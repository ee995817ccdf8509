-- ===== src/WsProxy.antt =====
-- src/ws_proxy_win.c: the WebSocket proxy in front of the MSP port.
pub mod Frame
pub mod Session
pub mod Bridge
pub mod Handshake
pub mod Listener
pub mod Client
