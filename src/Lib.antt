-- ===== src/Lib.antt =====
-- Betaflight SITL for Windows: the serial ports that it serves over TCP, the WebSocket proxy in
-- front of its MSP port, the OSD that it draws for a host, the clock and the saved configuration of
-- the in-process link, the clock that a flight model drives, and the blackbox logs.
--
-- The firmware talks to UARTs. The file src/serial_tcp_win.c makes each of them a TCP server: an
-- accepting thread fills eight client slots, a thread per client puts what it receives into the
-- port's receive ring, and what the firmware writes goes through the transmit ring to every client.
-- The file src/ws_proxy_win.c listens for WebSocket clients and bridges each to the MSP port, and
-- keeps a table of its sessions, so that a stop or a reboot can close them. Opening a serial port
-- starts the proxy. The file src/sitl_osd.c wraps the firmware's displayport: what the firmware draws
-- goes to a grid, and is published to the host as a frame where the firmware commits it.
--
-- In the other build the firmware is a library in the host's process. The file src/sitl_local.c gives
-- the host a step function, that moves a virtual clock on and runs the firmware's scheduler, and
-- settings, among them the file of the saved configuration. The file src/wincompat.c stands between
-- the firmware and Windows: it redirects the configuration's file, and keeps the folder of the
-- blackbox logs.
--
-- The file tools/bfweb-server.c is a small web server for the configurator: it answers a request with a
-- file below a root directory, and puts a script that presets the connection into the page.
--
-- Base: the Boolean tests, lists over the native numbers, 32-bit arithmetic, the bits of bytes, C strings
--   as lists of bytes, and signed arguments.
-- Serial.Ring: a port's ring; `read`, `store`, `write_buf`, `data_in` and `drain` are tcpRead,
--   tcpWrite, the loop of tcpWriteBuf, tcpDataIn and the first part of tcpDataOut. Its children
--   Queue and Transfer compare it with a queue of bytes.
-- Serial.Port: a port with its client slots; `data_out`, `write`, `write_buf`, `disconnect`,
--   `accept_client` and `drop_clients` are tcpDataOut, tcpWrite, tcpWriteBuf, tcpClientDisconnect,
--   the body of tcpServerThread and serialTcpDropClients for one port. `step` takes one of these
--   calls, and `run` a history of them, which stands for the loops of the threads.
--   Each holds the port's lock, so that the threads' interleavings are the histories. Its children
--   hold the invariant (Invariant), what becomes of the sockets (Sockets) and of the data (Delivery).
-- Serial.Server: `open_port`, `reconfigure`, `drop_all` and `stop` are serTcpOpen, tcpReconfigure,
--   serialTcpDropClients and serialTcpStop, over all ports; a record says which of the system's calls
--   succeed. Its children say when a port opens (Opening) and what opening and stopping do
--   (Lifecycle).
-- Fdm: the clock of the build that a flight model drives by UDP; `receive`, `commit_pending` and
--   `take_pending` are the timestamps of udpRecv, sitlUdpFdmCommitPending and
--   sitlUdpFdmTakePendingUs of src/udplink_windows.c, and `iterate` is a round of the loop `run` of
--   src/main_windows.c. A history is a sequence of packets and rounds. Its children follow the time
--   (Conservation) and bound it (Limits).
-- Local.Modes: `get_mode_range`, `set_mode_range`, `get_arm_switch` and `set_arm_switch` are
--   sitl_local_get_mode_range and so on, `update_latch` is localUpdateCrashFlipLatch; with Ranges and
--   CrashFlip about them.
-- Local.Grid: the virtual clock; `step_quantum`, `snap_step`, `step_clock` and `frame_status` are
--   localStepQuantumUs, the snap and the loop of sitl_local_step, and localRcFrameStatus. Its children
--   are about the steps (Quanta), the snap (Snap) and the receiver's frames (Cadence).
-- Local.Burst: the recorder of the control loop; `push` and `burst_log` are sitlBurstPush
--   and localBurstLog, and `burst_open`, `burst_write` and `burst_close` are the opening of the log in
--   sitlBurstDrain, rounds of its loop and the closing. Its children are about the ring (Queue), the times of
--   the records (Pacing), what the log holds in between (Log) and when a window is over (Windows).
-- Local.Config: the saved configuration; `set_eeprom_path`, `reload_config`, `flush_eeprom`,
--   `run_reload`, `run_reboot` and `run_requests` are sitl_local_set_eeprom_path,
--   sitl_local_reload_config, localFlushEepromWrite, localRunPendingReloadInternal,
--   localRunPendingReboot and the part of sitl_local_step that calls them. The firmware's calls are a
--   record; Documented says what is relied on, Reload and Switch follow the requests.
-- Blackbox: `collect` and `enforce` are sitlBlackboxCollect and sitlBlackboxEnforce of
--   src/wincompat.c, over a folder that says what each name holds. Its children are about the names
--   (Names), the order (Sorting), and what is kept (Window, Retention); Recorder has the counter and
--   the operations that open a log, keep the house or change the limit, with Opening and OpenLog about
--   them.
-- Web.Request: the requests of the configurator's web server, tools/bfweb-server.c: `read_request` is
--   the loop of handleClient that reads, `scan_request` its sscanf, and `is_safe_path` isSafePath. Its
--   children are about these (Reading, Scanning, Paths).
-- Web.Response: what handleClient answers: `page_response`, `file_response` and `error_response` are
--   sendFile and sendError, over a record of the disk's files. Its children are about the page's
--   length (Lengths) and the files that can be opened (Confinement).
-- WsProxy.Frame: `send_all`, `read_full`, `send_ws_frame` and `read_ws_frame` are sendAll, readFull,
--   sendWsFrame and readWsFrame; RoundTrip compares the last two with the frame format of RFC 6455,
--   Masking the XOR with the key, and Reading is about the first two.
-- WsProxy.Handshake: `answer` and `ws_handshake` are wsHandshake, `compute_accept` is computeAccept, with
--   Answers about them.
-- WsProxy.Listener: `ws_proxy_start` and `ws_proxy_stop` are wsProxyStart and wsProxyStop; Sockets follows
--   the listen sockets.
-- WsProxy.Client: `client_thread` is wsClientThread around its streaming loop; Closing is about the
--   sockets that it closes.
-- WsProxy.Session: wsSessions and the functions on it.
-- WsProxy.Bridge: the streaming loop of wsClientThread, with `send` and `recv` of each socket as a record.
-- Osd.Canvas: the grid and the frame of src/sitl_osd.c; `put`, `write_string`, `publish`, `init` and
--   so on are osdPut, wrapWriteString, osdPublish and displayPortMspInit. Its children say what the
--   firmware's calls draw (Drawing) and what a host reads of it (Publication).
-- Osd.Elements: `set_osd_element`, `get_osd_element` and `enable_feature` are sitl_local_set_osd_element,
--   sitl_local_get_osd_element and sitlOsdEnableFeature; Places and Boot are about them.
-- Osd.Font: the cached font of the same file; `write_font_character`, `sync_with_path`,
--   `font_revision` and `get_font` are wrapWriteFontCharacter, osdFontSyncWithPath and the host's
--   getters, which synchronise first. Its children follow an upload (Progress,
--   Upload) and a change of the aircraft (Path).
--
-- The loops that send and read take one byte at least in each round, so that the number of the bytes
-- is their fuel; that it is enough is proved. `send` and `recv` are parameters, with Winsock's
-- documented behaviour as hypotheses where it is needed. INVALID_SOCKET is a parameter too.
--
-- The reading of a request has as much fuel as its buffer has bytes, and the drain of the burst
-- recorder's ring as much as the ring has slots; that both are enough is proved. A client's thread makes
-- 50 attempts to reach the MSP port, as in the code.
--
-- The halving of the quantum and the loop over the quanta have fuel that is proved enough; the scan of
-- the folder takes 1024 logs at most, as in the code.
--
-- Not modelled: the accepting thread of the WebSocket proxy, the OSD's diagnostics, the sockets and the
-- telemetry of src/udplink_windows.c, the start of the program in src/main_windows.c, the other runtime glue of
-- src/wincompat.c, the other settings and the start of src/sitl_local.c, the listener of tools/bfweb-server.c, and the
-- other tools.
pub mod Base
pub mod Blackbox
pub mod Fdm
pub mod Local
pub mod Osd
pub mod Serial
pub mod Web
pub mod WsProxy
