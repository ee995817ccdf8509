-- ===== src/Local/Modes.antt =====
-- The mode ranges of the in-process link, in src/sitl_local.c: `sitl_local_get_mode_range`,
-- `sitl_local_set_mode_range`, and the pair for the arm switch, over the firmware's list of mode
-- activation conditions; and the crash-flip latch (`localUpdateCrashFlipLatch`). The firmware's own
-- operations on the list are the fields of a record; what the link relies on is stated beside it. The
-- call of `rcControlsInit` is not modelled, that of `sitlLocalRequestEepromWrite` is a flag.
pub mod Ranges
pub mod CrashFlip
mod Examples
use betaflight_sitl_udp.Base.{
  ℕ, zero, suc, ◌==◌, Bool, true, false, ◌&&◌, ◌||◌, not, List, [], ◌∷◌, Option, none, some, ltb,
  leb, if◌then◌else◌, set,
}

-- `SITL_LOCAL_MAX_RC_CHANNELS`
abbrev pub max_rc_channels : ℕ
max_rc_channels = 16

-- `modeActivationCondition_t`
pub record Condition : Type 0 where
  pub mode : ℕ
  pub aux_channel : ℕ
  pub start_step : ℕ
  pub end_step : ℕ
  pub logic : ℕ
  pub linked_to : ℕ

-- `emptyMac`
abbrev pub empty : Condition
empty = record { mode = 0; aux_channel = 0; start_step = 0; end_step = 0; logic = 0; linked_to = 0 }

-- What the link calls of the firmware, and the largest step of a range.
pub record Firmware : Type 0 where
  pub max_step : ℕ
  pub remove_condition : ℕ → List Condition → List Condition
  pub is_configured : Condition → Bool
  pub box_of_permanent_id : ℕ → Option ℕ

-- The list and whether a write of the EEPROM is requested.
pub record Modes : Type 0 where
  pub conditions : List Condition
  pub write_requested : Bool

-- A range as the host gives and gets it: 0xFF stands for no channel.
pub record Range : Type 0 where
  pub aux : ℕ
  pub first : ℕ
  pub last : ℕ

abbrev pub no_channel : ℕ
no_channel = 0xff

abbrev pub no_range : Range
no_range = record { aux = no_channel; first = 0; last = 0 }

abbrev pub range_of : Condition → Range
range_of c = record { aux = c.aux_channel; first = c.start_step; last = c.end_step }

-- The condition that `sitl_local_set_mode_range` writes.
abbrev pub condition_of : ℕ → Range → Condition
condition_of box r = record {
  mode = box;
  aux_channel = r.aux;
  start_step = r.first;
  end_step = r.last;
  logic = 0;
  linked_to = 0;
}

abbrev pub keep_first : Condition → Option (List Condition) → Option (List Condition)
keep_first c none = none
keep_first c (some done) = some (c ∷ done)

module _ (firmware : Firmware) where
  -- The loop of `sitl_local_get_mode_range`.
  pub find_range : ℕ → List Condition → Range
  find_range box [] = no_range
  find_range box (c ∷ rest) =
      let later = find_range box rest in
      if firmware.is_configured c && c.mode == box then range_of c else later

  -- The loop of `sitl_local_set_mode_range`: the first condition that is not configured is replaced.
  pub put_in_free : Condition → List Condition → Option (List Condition)
  put_in_free new [] = none
  put_in_free new (c ∷ rest) =
      if firmware.is_configured c then keep_first c (put_in_free new rest) else some (new ∷ rest)

  pub is_valid : Range → Bool
  is_valid r =
      (r.aux == no_channel || ltb r.aux max_rc_channels)
      && leb r.first firmware.max_step
      && leb r.last firmware.max_step
      && leb r.first r.last

  -- The end of `sitl_local_set_mode_range`, once the old conditions are removed.
  pub finish : Modes → List Condition → Option (List Condition) → Bool × Modes
  finish m cleared none = (false, record m { conditions = cleared })
  finish m cleared (some done) = (true, record { conditions = done; write_requested = true })

  -- What `sitl_local_set_mode_range` and `sitl_local_set_arm_switch` do for a box.
  pub set_box : ℕ → Range → Modes → Bool × Modes
  set_box box r m =
      let cleared = firmware.remove_condition box m.conditions in
      if is_valid r
      then (if r.aux == no_channel
          then (true, record { conditions = cleared; write_requested = true })
          else finish m cleared (put_in_free (condition_of box r) cleared))
      else (false, m)

  -- `sitlLocalBoxFromPermanentId`, for an id that is not negative.
  pub box_from : ℕ → Option ℕ
  box_from id = if leb id 255 then firmware.box_of_permanent_id id else none

  -- `sitl_local_get_mode_range`, by the box that the id has.
  pub get_mode_range : Bool → Option ℕ → Modes → Range
  get_mode_range running none m = no_range
  get_mode_range running (some box) m = if running then find_range box m.conditions else no_range

  -- `sitl_local_set_mode_range`, by the box that the id has.
  pub set_mode_range : Bool → Option ℕ → Range → Modes → Bool × Modes
  set_mode_range running none r m = (false, m)
  set_mode_range running (some box) r m = if running then set_box box r m else (false, m)

  -- `sitl_local_get_arm_switch` and `sitl_local_set_arm_switch`; BOXARM is 0.
  pub get_arm_switch : Bool → Modes → Range
  get_arm_switch running m = if running then find_range 0 m.conditions else no_range

  pub set_arm_switch : Bool → Range → Modes → Bool × Modes
  set_arm_switch running r m = if running then set_box 0 r m else (false, m)

-- `gLocalCrashFlipLatched` and `gLocalWasArmed`.
pub record Latch : Type 0 where
  pub latched : Bool
  pub was_armed : Bool

-- `localUpdateCrashFlipLatch`; `box` is whether the crash-flip box is on.
pub update_latch : Bool → Bool → Latch → Latch
update_latch armed box l = record {
  latched =
      if not armed
      then false
      else (if not l.was_armed then box else (if l.latched && not box then false else l.latched));
  was_armed = armed;
}

-- The updates at the ends of the host's steps.
pub update_all : List (Bool × Bool) → Latch → Latch
update_all [] l = l
update_all ((armed, box) ∷ steps) l = update_all steps (update_latch armed box l)
