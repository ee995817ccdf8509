-- ===== src/Fdm.antt =====
-- The clock of the UDP build: how the timestamps of the flight model's packets become virtual time
-- (`udpRecv`, `sitlUdpFdmCommitPending`, `sitlUdpFdmTakePendingUs` of src/udplink_windows.c, with
-- `sitlMutexUnlock` of src/wincompat.c), and how the loop `run` of src/main_windows.c steps the clock.
-- Two threads share the pending time by atomic exchanges: one receives a packet, writes the sensors and
-- commits, the other takes what is pending. The arithmetic of `double` is a parameter; the socket, the
-- event and what the scheduler does are not modelled, only the times at which it is called.
pub mod Conservation
pub mod Limits
mod Examples
use betaflight_sitl_udp.Base.{
  ℕ, ◌+◌, ◌-◌, ◌%◌, ◌^◌, Bool, true, false, ◌&&◌, not, List, [], ◌∷◌, ◌++◌, ltb, leb, if◌then◌else◌,
  add32,
}
use betaflight_sitl_udp.Local.Grid.{quanta}

-- SITL_MAX_FDM_DELTA_US
abbrev pub max_delta_us : ℕ
max_delta_us = 5000000

-- `stepUs` of the loop.
abbrev pub step_us : ℕ
step_us = 100

-- What the link does with `double`.
pub record Double (T : Type 0) : Type 0 where
  pub of_int : ℕ → T
  pub minus_one : T
  pub add : T → T → T
  pub sub : T → T → T
  pub mul : T → T → T
  pub lt : T → T → Bool
  pub le : T → T → Bool
  pub to_int : T → ℕ

-- `gFdmLastTs`, `gFdmRemainderUs`, `gFdmCommitUs`, `gFdmPendingUs` and `gFdmPacketCount`.
pub record Link (T : Type 0) : Type 0 where
  pub last_ts : T
  pub remainder_us : T
  pub commit_us : ℕ
  pub pending_us : ℕ
  pub packet_count : ℕ

-- What the loop keeps: the virtual clock, its own pending time, the times at which it called the
-- scheduler with time to spend, and how often it idled.
pub record Loop : Type 0 where
  pub clock : ℕ
  pub pending : ℕ
  pub passes : List ℕ
  pub idles : ℕ

module _ {T : Type 0} (double : Double T) where
  -- The delta between a timestamp and the last one, in microseconds.
  pub delta_us : T → Link T → T
  delta_us ts f =
      double.add (double.mul (double.sub ts f.last_ts) (double.of_int 1000000)) f.remainder_us

  -- What the timestamp of a packet does to the deferred time.
  pub defer : T → Link T → Link T
  defer ts f =
      let zero_us = double.of_int 0 in
      let delta = delta_us ts f in
      let whole = double.to_int delta in
      let resynced = record f { remainder_us = zero_us; commit_us = 0 } in
      if double.le zero_us f.last_ts && double.lt f.last_ts ts
      then (if double.lt zero_us delta && double.le delta (double.of_int max_delta_us)
          then record f { remainder_us = double.sub delta (double.of_int whole); commit_us = whole }
          else resynced)
      else (if double.lt ts f.last_ts then resynced else f)

  -- The part of `udpRecv` on the timestamp of a packet.
  pub receive : T → Link T → Link T
  receive ts f =
      let deferred = defer ts f in
      record deferred { last_ts = ts; packet_count = add32 f.packet_count 1 }

  -- `sitlUdpFdmReset`.
  pub reset : Link T → Link T
  reset f = record {
    last_ts = double.minus_one;
    remainder_us = double.of_int 0;
    commit_us = 0;
    pending_us = 0;
    packet_count = 0;
  }

-- The inner loop of `run`, with the pending time as fuel.
pub consume : Loop → Loop
consume l =
    let spent = quanta l.pending step_us l.clock l.pending in
    record l { clock = spent.time; pending = spent.left; passes = l.passes ++ spent.passes }

module _ {T : Type 0} where
  -- `sitlUdpFdmCommitPending`.
  pub commit_pending : Link T → Link T
  commit_pending f =
      if ltb 0 f.commit_us
      then record f { commit_us = 0; pending_us = (f.pending_us + f.commit_us) % 2 ^ 64 }
      else record f { commit_us = 0 }

  -- `sitlUdpFdmTakePendingUs`.
  pub take_pending : Link T → ℕ × Link T
  take_pending f = (f.pending_us, record f { pending_us = 0 })

  -- `sitlUdpFdmHasData`, for a count that fits a LONG.
  pub has_data : Link T → Bool
  has_data f = leb 2 f.packet_count

  -- One round of the outer loop of `run`.
  pub iterate : Loop → Link T → Loop × Link T
  iterate l f =
      let consumed = consume l in
      let (us, taken) = take_pending f in
      let pending = (consumed.pending + us) % 2 ^ 64 in
      let idles = if leb step_us pending then consumed.idles else consumed.idles + 1 in
      (record consumed { pending = pending; idles = idles }, taken)

-- What the two threads do: a packet with its timestamp, and a round of the loop. A packet is the receipt
-- and the commit in one step: the firmware's `updateState`, which is not in this repository, is called by
-- the receiving thread on each packet and ends with `sitlMutexUnlock`, so that no packet finds the time
-- of the one before uncommitted, and a round between the two sees nothing of the packet.
pub data Event (T : Type 0) : Type 0 where
  packet : T → Event T
  round : Event T

module _ {T : Type 0} (double : Double T) where
  pub step : Event T → Loop × Link T → Loop × Link T
  step (packet ts) (l, f) = (l, commit_pending (receive double ts f))
  step round (l, f) = iterate l f

  pub run : List (Event T) → Loop × Link T → Loop × Link T
  run [] s = s
  run (e ∷ events) s = run events (step e s)
