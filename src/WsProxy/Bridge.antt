-- ===== src/WsProxy/Bridge.antt =====
-- The streaming loop of `wsClientThread` in src/ws_proxy_win.c, between the WebSocket client and the
-- MSP port. `select` says which sockets have something to read. `sendAll` may give up on either
-- socket, and the loop goes on; each socket has its own `send`.
pub mod Relay
mod Examples
use betaflight_sitl_udp.Base.{
  ℕ, Bool, true, false, not, ◌&&◌, List, [], ◌∷◌, ◌++◌, Option, none, some, if◌then◌else◌,
}
use betaflight_sitl_udp.WsProxy.Frame.{
  Recv, Received, send_ws_frame, send_all, send_pieces, read_ws_frame,
}

-- The sizes of `wsPayload` and `tcpBuf`.
abbrev pub ws_payload_size : ℕ
ws_payload_size = 65536

abbrev pub tcp_buf_size : ℕ
tcp_buf_size = 4096

-- The calls of the system: `recv` on the client's socket, and how many bytes a `send` takes on each
-- socket, 0 standing for every result at which `sendAll` gives up.
pub record Network : Type 0 where
  pub recv : Recv
  pub send_client : List ℕ → ℕ
  pub send_msp : List ℕ → ℕ

pub record Link : Type 0 where
  pub client_input : List ℕ
  pub to_client : List ℕ
  pub to_msp : List ℕ
  pub ws_closed : Bool
  pub running : Bool

-- `FD_ISSET(tcp)`: what one `recv` from the MSP port returned goes out as a binary frame; an empty
-- result ends the loop.
pub msp_readable : Network → List ℕ → Link → Link
unfolding send_ws_frame send_pieces
msp_readable network [] l = record l { running = false }
msp_readable network (b ∷ bytes) l = record l {
  to_client = l.to_client ++ send_pieces network.send_client (send_ws_frame 0x2 (b ∷ bytes));
}

-- `FD_ISSET(ws)`, on what `readWsFrame` left behind.
pub take_frame : Network → Option Received → Link → Link
unfolding send_all send_pieces
take_frame network none l = record l { running = false }
take_frame network (some r) l = record l {
  client_input = r.rest;
  to_client = l.to_client ++ send_pieces network.send_client r.answer;
  to_msp = if r.result then l.to_msp ++ send_all network.send_msp r.payload else l.to_msp;
  ws_closed = r.close;
  running = r.result && not r.close;
}

pub client_readable : Network → Link → Link
client_readable network l =
    take_frame network (read_ws_frame network.recv ws_payload_size l.ws_closed l.client_input) l

-- What `select` reports in one round: what `recv` returns from the MSP port, and whether the client
-- has sent something.
pub record Ready : Type 0 where
  pub from_msp : Option (List ℕ)
  pub from_client : Bool

-- The rest of a round, where the first part did not break the loop.
pub second_half : Network → Bool → Link → Link
second_half network ready l =
    if l.running then (if ready then client_readable network l else l) else l

pub first_half : Network → Option (List ℕ) → Link → Link
first_half network none l = l
first_half network (some bytes) l = msp_readable network bytes l

-- One round of the loop. `wsClosed` is tested at its head: `running` has turned false with it.
pub round : Network → Ready → Link → Link
round network r l =
    if l.running then second_half network r.from_client (first_half network r.from_msp l) else l

pub rounds : Network → List Ready → Link → Link
rounds network [] l = l
rounds network (r ∷ more) l = rounds network more (round network r l)
