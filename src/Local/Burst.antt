-- ===== src/Local/Burst.antt =====
-- The burst recorder of src/sitl_local.c: the ring between the step thread, which pushes records,
-- and the MSP thread, which writes them to a file. What a record holds is a parameter. The two
-- threads share the ring without a lock: `sitlBurstDrain` is given in three parts, the opening of the
-- log, the rounds of its loop and the closing, between which the step thread may push.
pub mod Queue
pub mod Pacing
pub mod Log
pub mod Windows
mod Examples
use betaflight_sitl_udp.Base.{
  ℕ, zero, suc, ◌+◌, ◌-◌, ◌*◌, ◌/◌, ◌%◌, ◌^◌, ◌==◌, Bool, true, false, ◌&&◌, ◌||◌, not, List, [],
  ◌∷◌, ◌++◌, Option, none, some, ltb, leb, if◌then◌else◌, get_elem?, set, length, map, codes,
}

-- `SITL_BURST_RING` and `SITL_BURST_RECORDS`
abbrev pub ring_size : ℕ
ring_size = 4096

abbrev pub burst_records : ℕ
burst_records = 2000

-- `gBurstRing`, `gBurstHead`, `gBurstTail` and `gBurstDropped`
pub record Ring (A : Type 0) : Type 0 where
  pub slots : List A
  pub head : ℕ
  pub tail : ℕ
  pub dropped : ℕ

-- The index after `i`.
abbrev pub next : ℕ → ℕ
next i = if i + 1 == ring_size then 0 else i + 1

-- The two ends of `sitlBurstPush`.
abbrev pub refuse : {A : Type 0} → Ring A → Ring A
refuse r = record r { dropped = (r.dropped + 1) % 2 ^ 32 }

abbrev pub store : {A : Type 0} → Ring A → A → Ring A
store r rec = record r { slots = set r.slots r.head rec; head = next r.head }

-- `sitlBurstPush`
pub push : {A : Type 0} → Ring A → A → Ring A
push r rec = if next r.head == r.tail then refuse r else store r rec

-- The loop of `sitlBurstDrain`, with fuel: the records that it writes, in order.
pub drain_rounds : {A : Type 0} → ℕ → Ring A → List A × Ring A
drain_rounds zero r = ([], r)
drain_rounds (suc fuel) r =
    let (lines, rest) = drain_rounds fuel (record r { tail = next r.tail }) in
    if r.tail == r.head
    then ([], r)
    else elim (get_elem? r.slots r.tail) [ none ↦ ([], r) | some rec ↦ (rec ∷ lines, rest) ]

-- The ring holds less than its size, which is fuel enough.
pub drain : {A : Type 0} → Ring A → List A × Ring A
unfolding drain_rounds
drain r = drain_rounds ring_size r

-- What `getenv` gives: `none` where the variable is not set.
abbrev pub is_on : Option (List ℕ) → Bool
is_on none = false
is_on (some []) = false
is_on (some (c ∷ rest)) = not (c == b'0')

abbrev pub is_given : Option (List ℕ) → Bool
is_given none = false
is_given (some []) = false
is_given (some (c ∷ rest)) = true

-- The value of a variable, for a `strtol` that gives 0 for what is negative too, which is no difference
-- here.
abbrev pub number : (List ℕ → ℕ) → ℕ → Option (List ℕ) → ℕ
number strtol other none = other
number strtol other (some []) = other
number strtol other (some (c ∷ rest)) = strtol (c ∷ rest)

-- `localBurstPeriodUs`
pub period_us : (List ℕ → ℕ) → Option (List ℕ) → ℕ
period_us strtol env =
    let seconds = number strtol 12 env in
    (if leb 1 seconds && leb seconds 3600 then seconds else 12) * 1000000

-- `localBurstGridUs`
abbrev pub grid_from : (List ℕ → ℕ) → Option (List ℕ) → Option (List ℕ) → ℕ
grid_from strtol full hz_env =
    let hz = number strtol 0 hz_env in
    if is_on full
    then 0
    else (if is_given hz_env
        then (if hz == 0 then 0 else (if ltb 4000 hz then 0 else 1000000 / hz))
        else 1000)

pub grid_us : ℕ → ℕ → ℕ
grid_us cached step =
    if cached == 0 || step == 0 then step else (if ltb cached step then step else cached)

-- What the environment says: `localBurstEnabled`, and the two above.
pub record Pace : Type 0 where
  pub enabled : Bool
  pub period : ℕ
  pub grid : ℕ

pub pace :
    (List ℕ → ℕ) → Option (List ℕ) → Option (List ℕ) → Option (List ℕ) → Option (List ℕ) → Pace
unfolding period_us
pace strtol burst period_env full hz_env = record {
  enabled = is_on burst;
  period = period_us strtol period_env;
  grid = grid_from strtol full hz_env;
}

-- A line of the log.
pub data Line (A : Type 0) : Type 0 where
  header : Line A
  one_record : A → Line A
  dropped_note : ℕ → Line A

-- The recorder: the ring, the variables of `localBurstLog`, `gBurstRecording`, whether the log is open,
-- and what it holds. Each opening empties the log.
pub record Recorder (A : Type 0) : Type 0 where
  pub ring : Ring A
  pub recording : Bool
  pub next_record : ℕ
  pub next_burst : ℕ
  pub burst_step : ℕ
  pub is_open : Bool
  pub log : List (Line A)

-- The part of `localBurstLog` after its tests.
pub take_record : {A : Type 0} → Pace → ℕ → ℕ → A → Recorder A → Recorder A
unfolding push grid_us
take_record p step now rec s =
    let count = ((if s.recording then s.burst_step else 0) + 1) % 2 ^ 32 in
    let ends = leb burst_records count in
    record s {
      ring = push s.ring rec;
      recording = not ends;
      next_record = (now + grid_us p.grid step) % 2 ^ 64;
      next_burst = if ends then (now + p.period) % 2 ^ 64 else s.next_burst;
      burst_step = count;
    }

-- `localBurstLog`
pub burst_log : {A : Type 0} → Pace → ℕ → ℕ → A → Recorder A → Bool × Recorder A
burst_log p step now rec s =
    if not p.enabled
    then (false, s)
    else (if not s.recording && ltb now s.next_burst
        then (false, s)
        else (if ltb now s.next_record then (false, s) else (true, take_record p step now rec s)))

-- The path of the log, where it fits `path`.
pub log_path : Option (List ℕ) → Option (List ℕ) → Option (List ℕ)
log_path (some (c ∷ rest)) app_data = some (c ∷ rest)
log_path other none = none
log_path other (some folder) = some (folder ++ codes "\\Betaflight-SITL\\sitl-burst.log")

-- The opening of the log in `sitlBurstDrain`: `fopen` says of a path whether it can be opened.
pub burst_open : {A : Type 0} → Option (List ℕ) → (List ℕ → Bool) → Recorder A → Recorder A
burst_open path fopen s =
    let opened = record s {
      ring = record s.ring { dropped = 0 };
      is_open = true;
      log = header ∷ [];
    } in
    if s.is_open
    then s
    else (if not s.recording then s else elim path [
      | none ↦ s
      | some name ↦ if fopen name then opened else record s { recording = false }
    ])

-- At most so many rounds of its loop, which is left where the tail meets the head.
pub burst_write : {A : Type 0} → ℕ → Recorder A → Recorder A
unfolding drain_rounds
burst_write rounds s =
    let (lines, ring) = drain_rounds rounds s.ring in
    if s.is_open then record s { ring = ring; log = s.log ++ map one_record lines } else s

-- Its end: the test of `gBurstRecording`, and the closing of the log.
pub burst_close : {A : Type 0} → Recorder A → Recorder A
burst_close s =
    if s.is_open && not s.recording
    then record s {
      log = if s.ring.dropped == 0 then s.log else s.log ++ (dropped_note s.ring.dropped ∷ []);
      is_open = false;
    }
    else s

-- `sitlBurstDrain` with no push in between, where the size of the ring is rounds enough.
pub burst_drain : {A : Type 0} → Option (List ℕ) → (List ℕ → Bool) → Recorder A → Recorder A
unfolding burst_open burst_write burst_close
burst_drain path fopen s = burst_close (burst_write ring_size (burst_open path fopen s))
