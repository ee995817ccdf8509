-- ===== src/WsProxy/Bridge/Relay.antt =====
-- What the streaming loop passes on.
use betaflight_sitl_udp.Base.{
  ℕ, ◌≤◌, ◌<◌, ◌≡◌, refl, ◌∙◌, ap, ap₂, Bool, true, false, List, [], ◌∷◌, ◌++◌, none, some,
  if◌then◌else◌, arith, length, append-nil, append_assoc, ◌⊎◌, inl, inr, sym, Option,
}
use betaflight_sitl_udp.WsProxy.Frame.{dispatch, send_all, send_pieces, read_ws_frame}
use betaflight_sitl_udp.WsProxy.Frame.Reading.{Reads, send_all_lem}
use betaflight_sitl_udp.WsProxy.Frame.RoundTrip.{encode, read_ws_frame-encode, send_ws_frame-encode}
use betaflight_sitl_udp.WsProxy.Bridge.{
  Network, Link, Ready, ws_payload_size, tcp_buf_size, msp_readable, take_frame, client_readable,
  first_half, second_half, round, rounds,
}

-- `sendAll` gets on: a `send` takes one byte at least whenever there is one.
abbrev pub GetsOn : (List ℕ → ℕ) → Type 0
GetsOn send = (d : List ℕ) → 0 < length d → 0 < send d

-- The calls of the system that are no obstacle.
pub record IsUp (network : Network) : Type 0 where
  pub reads : Reads network.recv
  pub client_takes : GetsOn network.send_client
  pub msp_takes : GetsOn network.send_msp

round_up :
    (network : Network) (r : Ready) (l : Link)
    → l.running ≡ true
    → round network r l ≡ second_half network r.from_client (first_half network r.from_msp l)
unfolding round
round_up network r l up =
    ap (λ b. if b then second_half network r.from_client (first_half network r.from_msp l) else l)
      up

-- A data frame of the client: text or binary, masked with four bytes, and no longer than the buffer.
pub record Message : Type 0 where
  pub opcode : ℕ
  pub key : List ℕ
  pub payload : List ℕ

abbrev pub IsMessage : Message → Type 0
IsMessage m =
    ((m.opcode ≡ 1) ⊎ (m.opcode ≡ 2)) × (length m.key ≡ 4) × (length m.payload ≤ ws_payload_size)

-- One round: a data frame of the client, and what the MSP port has sent, nothing if it is silent.
pub record Turn : Type 0 where
  pub message : Message
  pub chunk : List ℕ

abbrev pub AllTurns : List Turn → Type 0
AllTurns [] = Unit
AllTurns (t ∷ more) = (IsMessage t.message × (length t.chunk ≤ tcp_buf_size)) × AllTurns more

abbrev pub wire : List Turn → List ℕ
wire [] = []
wire (t ∷ more) = encode true t.message.key t.message.opcode t.message.payload ++ wire more

abbrev pub payloads : List Turn → List ℕ
payloads [] = []
payloads (t ∷ more) = t.message.payload ++ payloads more

-- What the MSP port sent comes as one binary frame for each round in which it sent something.
abbrev pub frame_of : List ℕ → List ℕ
frame_of [] = []
frame_of (b ∷ bytes) = encode false [] 2 (b ∷ bytes)

abbrev pub frames : List Turn → List ℕ
frames [] = []
frames (t ∷ more) = frame_of t.chunk ++ frames more

abbrev pub heard : List ℕ → Option (List ℕ)
heard [] = none
heard (b ∷ bytes) = some (b ∷ bytes)

abbrev pub ready_of : Turn → Ready
ready_of t = record { from_msp = heard t.chunk; from_client = true }

abbrev pub ready_in : List Turn → List Ready
ready_in [] = []
ready_in (t ∷ more) = ready_of t ∷ ready_in more

client_readable-encode :
    (network : Network) (l : Link) (opcode : ℕ) (masked : Bool) (key payload rest : List ℕ)
    → Reads network.recv
    → opcode < 16
    → length key ≡ (if masked then 4 else 0)
    → length payload ≤ ws_payload_size
    → l.client_input ≡ encode masked key opcode payload ++ rest
    → client_readable network l
      ≡ take_frame network (some (dispatch opcode l.ws_closed payload rest)) l
unfolding client_readable
client_readable-encode network l opcode masked key payload rest reads op keyed fits input =
    ap (λ i. take_frame network (read_ws_frame network.recv ws_payload_size l.ws_closed i) l) input
    ∙ ap (λ r. take_frame network r l)
        (read_ws_frame-encode ws_payload_size opcode l.ws_closed masked key payload rest reads op
          keyed fits (omega arith))

-- The state behind the MSP port's part of a round, and behind the client's.
answered : Link → List ℕ → Link
answered l chunk = record l { to_client = l.to_client ++ frame_of chunk }

relayed : Link → List ℕ → List ℕ → Link
relayed l payload rest = record l { client_input = rest; to_msp = l.to_msp ++ payload }

first_half_lem :
    (network : Network) (l : Link) (chunk : List ℕ)
    → GetsOn network.send_client
    → length chunk ≤ tcp_buf_size
    → first_half network (heard chunk) l ≡ answered l chunk
unfolding first_half msp_readable answered
first_half_lem network l [] takes fits =
    ap (λ t. record l { to_client = t }) (sym (append-nil l.to_client))
first_half_lem network l (b ∷ bytes) takes fits =
    ap (λ f. record l { to_client = l.to_client ++ f })
      (send_ws_frame-encode network.send_client 2 (b ∷ bytes) takes (omega arith) (omega arith))

second_half_up :
    (network : Network) (l : Link)
    → l.running ≡ true
    → second_half network true l ≡ client_readable network l
unfolding second_half
second_half_up network l up = ap (λ b. if b then client_readable network l else l) up

relayed_eq :
    (l : Link) (sent payload rest : List ℕ) (closed running : Bool)
    → l.ws_closed ≡ closed
    → l.running ≡ running
    → sent ≡ payload
    → record l {
      client_input = rest;
      to_client = l.to_client ++ [];
      to_msp = l.to_msp ++ sent;
      ws_closed = closed;
      running = running;
    }
      ≡ relayed l payload rest
unfolding relayed
relayed_eq l sent payload rest closed running live up whole =
    ap₂
      (λ c r. record l {
        client_input = rest;
        to_client = l.to_client ++ [];
        to_msp = l.to_msp ++ sent;
        ws_closed = c;
        running = r;
      })
      (sym live) (sym up)
    ∙ ap₂ (λ t m. record l { client_input = rest; to_client = t; to_msp = l.to_msp ++ m })
        (append-nil l.to_client) whole

take_frame-data :
    (network : Network) (l : Link) (opcode : ℕ) (payload rest : List ℕ)
    → GetsOn network.send_msp
    → (opcode ≡ 1) ⊎ (opcode ≡ 2)
    → l.running ≡ true
    → l.ws_closed ≡ false
    → take_frame network (some (dispatch opcode l.ws_closed payload rest)) l
      ≡ relayed l payload rest
unfolding take_frame dispatch send_pieces
take_frame-data network l opcode payload rest takes (inl e) up live = rw e (
    relayed_eq l (send_all network.send_msp payload) payload rest false true live up
      (send_all_lem network.send_msp payload takes))
take_frame-data network l opcode payload rest takes (inr e) up live = rw e (
    relayed_eq l (send_all network.send_msp payload) payload rest false true live up
      (send_all_lem network.send_msp payload takes))

round-Turn :
    (network : Network) (l : Link) (t : Turn) (rest : List ℕ)
    → IsUp network
    → IsMessage t.message
    → length t.chunk ≤ tcp_buf_size
    → l.running ≡ true
    → l.ws_closed ≡ false
    → l.client_input ≡ encode true t.message.key t.message.opcode t.message.payload ++ rest
    → round network (ready_of t) l ≡ relayed (answered l t.chunk) t.message.payload rest
unfolding answered
round-Turn network l t rest can (op, keyed, fits) short up live input =
    let m = t.message in
    let small : m.opcode < 16 = elim op [ inl e ↦ omega arith | inr e ↦ omega arith ] in
    round_up network (ready_of t) l up
    ∙ ap (second_half network true) (first_half_lem network l t.chunk can.client_takes short)
    ∙ second_half_up network (answered l t.chunk) up
    ∙ client_readable-encode network (answered l t.chunk) m.opcode true m.key m.payload rest
        can.reads small keyed fits input
    ∙ take_frame-data network (answered l t.chunk) m.opcode m.payload rest can.msp_takes op up live

-- On a link that is up, in rounds that each bring a data frame of the client, masked and no longer than
-- the buffer, and may bring up to 4096 bytes from the MSP port, where every `send` takes a byte at
-- least: the payloads of the client reach the MSP port in order, joined and unmasked, however the
-- network splits the frames, the MSP port's bytes reach the client as one binary frame for each round
-- that brings some, in order, nothing else is sent either way, and the link stays up.
pub rounds-wire :
    (network : Network) (turns : List Turn) (l : Link) (rest : List ℕ)
    → IsUp network
    → AllTurns turns
    → l.running ≡ true
    → l.ws_closed ≡ false
    → l.client_input ≡ wire turns ++ rest
    → rounds network (ready_in turns) l ≡ record l {
      client_input = rest;
      to_client = l.to_client ++ frames turns;
      to_msp = l.to_msp ++ payloads turns;
    }
unfolding rounds relayed answered
rounds-wire network [] l rest can ok up live input =
    ap₂ (λ i (t : List ℕ × List ℕ). record l { client_input = i; to_client = t.0; to_msp = t.1 })
      input (ap₂ (λ c m. (c, m)) (sym (append-nil l.to_client)) (sym (append-nil l.to_msp)))
rounds-wire network (t ∷ more) l rest can ((ok, short), oks) up live input =
    let m = t.message in
    let behind = wire more ++ rest in
    ap (rounds network (ready_in more)) (
      round-Turn network l t behind can ok short up live
        (input ∙ append_assoc (encode true m.key m.opcode m.payload) (wire more) rest))
    ∙ rounds-wire network more (relayed (answered l t.chunk) m.payload behind) rest can oks up live
        refl
    ∙ ap₂ (λ c d. record l { client_input = rest; to_client = c; to_msp = d })
        (append_assoc l.to_client (frame_of t.chunk) (frames more))
        (append_assoc l.to_msp m.payload (payloads more))

-- A ping is answered with a pong of the same payload; but the payload is also passed on to the MSP
-- port, as if it were data.
pub ping_reaches_msp :
    (network : Network) (l : Link) (key payload rest : List ℕ)
    → IsUp network
    → length key ≡ 4
    → length payload ≤ ws_payload_size
    → l.running ≡ true
    → l.ws_closed ≡ false
    → l.client_input ≡ encode true key 9 payload ++ rest
    → let after = client_readable network l in
      (after.to_client ≡ l.to_client ++ encode false [] 10 payload)
      × (after.to_msp ≡ l.to_msp ++ payload)
      × (after.running ≡ true)
unfolding take_frame dispatch send_pieces
ping_reaches_msp network l key payload rest can keyed fits up live input = ground (
  arith,
  client_readable-encode network l 9 true key payload rest can.reads,
  send_ws_frame-encode network.send_client 10 payload can.client_takes,
  send_all_lem network.send_msp payload can.msp_takes,
)

rounds_stopped :
    (network : Network) (more : List Ready) (l : Link)
    → l.running ≡ false
    → rounds network more l ≡ l
unfolding rounds round
rounds_stopped network [] l down = refl
rounds_stopped network (r ∷ more) l down =
    ap
      (λ b.
        rounds network more
          (if b then second_half network r.from_client (first_half network r.from_msp l) else l))
      down
    ∙ rounds_stopped network more l down

-- A close frame ends the loop, and its payload goes nowhere.
pub close_ends_link :
    (network : Network) (l : Link) (key payload rest : List ℕ) (more : List Ready)
    → IsUp network
    → length key ≡ 4
    → length payload ≤ ws_payload_size
    → l.client_input ≡ encode true key 8 payload ++ rest
    → let after = rounds network more (client_readable network l) in
      (after.to_msp ≡ l.to_msp) × (after.to_client ≡ l.to_client) × (after.running ≡ false)
unfolding take_frame dispatch send_pieces
close_ends_link network l key payload rest more can keyed fits input =
    let closing : client_readable network l
        ≡ take_frame network (some (dispatch 8 l.ws_closed payload rest)) l =
      client_readable-encode network l 8 true key payload rest can.reads (omega arith) keyed fits
        input in
    rw closing (
      rw
        (rounds_stopped network more
          (take_frame network (some (dispatch 8 l.ws_closed payload rest)) l) refl)
        (refl, append-nil l.to_client, refl))
