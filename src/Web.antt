-- ===== src/Web.antt =====
-- The browser configurator's server, src/tools/bfweb-server.c: how `handleClient` reads a request and
-- which file it opens for it, and what `sendFile` and `sendError` answer. A C string is the list of its
-- bytes before the terminator. `recv` and the file system are parameters.
pub mod Request
pub mod Response
mod Examples
