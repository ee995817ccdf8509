-- ===== src/Local/Config.antt =====
-- The saved configuration of the in-process link: the requests `sitl_local_set_eeprom_path`,
-- `sitl_local_reload_config`, `sitlLocalRequestRebootApply`, and how `sitl_local_step` carries them
-- out (`localRunPendingReloadInternal`, `localRunPendingReboot`), of src/sitl_local.c, and the virtual
-- EEPROM file of `sitlFopen`, `sitlFclose` in src/wincompat.c. The firmware's own calls, which are not
-- part of the repository, are the operations of a record; what the link relies on is stated beside it.
-- A C string is the list of its bytes before the terminator.
pub mod Documented
pub mod Reload
pub mod Switch
mod Examples
use betaflight_sitl_udp.Base.{
  ℕ, ◌*◌, ◌%◌, ◌^◌, ◌≡◌, ◌≢◌, ◌⊎◌, Bool, true, false, ◌&&◌, ◌||◌, not, List, [], ◌∷◌, ◌++◌, Option,
  none, some, leb, ◌==◌, if◌then◌else◌, length, replicate, bit_xor,
}

-- "eeprom.bin"
abbrev pub eeprom_bin : List ℕ
eeprom_bin = b'e' ∷ b'e' ∷ b'p' ∷ b'r' ∷ b'o' ∷ b'm' ∷ b'.' ∷ b'b' ∷ b'i' ∷ b'n' ∷ []

-- "\Betaflight-SITL\eeprom.bin"
abbrev pub default_tail : List ℕ
default_tail =
    0x5c ∷ b'B' ∷ b'e' ∷ b't' ∷ b'a' ∷ b'f' ∷ b'l' ∷ b'i' ∷ b'g' ∷ b'h' ∷ b't' ∷ b'-' ∷ b'S' ∷ b'I'
    ∷ b'T' ∷ b'L' ∷ 0x5c ∷ eeprom_bin

-- `sitlFopen`: the file that stands for eeprom.bin, by the value of BF_SITL_EEPROM.
pub eeprom_file : List ℕ → List ℕ
eeprom_file [] = eeprom_bin
eeprom_file (c ∷ rest) = c ∷ rest

-- The firmware's flash mirror `eepromData` and its parameter groups, the files, the path of the open
-- handle `gSitlEepromFd`, and BF_SITL_EEPROM.
pub record Chip (Config : Type 0) : Type 0 where
  pub mirror : List ℕ
  pub config : Config
  pub disk : List ℕ → Option (List ℕ)
  pub opened : Option (List ℕ)
  pub env : List ℕ

-- What the link calls of the firmware.
pub record Firmware (Config : Type 0) : Type 0 where
  pub write_eeprom : Chip Config → Chip Config
  pub config_lock : Chip Config → Chip Config
  pub config_unlock : Chip Config → Chip Config
  pub load_eeprom : Chip Config → Chip Config
  pub ensure_structure : Chip Config → Chip Config
  pub pid_profile_index : Config → ℕ
  pub active_rate_profile : Config → ℕ
  pub change_pid_profile : ℕ → Config → Config
  pub change_rate_profile : ℕ → Config → Config
  pub gyro_filters_changed : Config → Config → Bool

-- The calls by which a configuration is applied again, in their order.
pub data Call : Type 0 where
  apply_link_overrides : Call
  run_boot_reapply : Bool → Call
  run_boot_profile_init : Call
  blackbox_init : Call
  reset_osd_runtime : Call
  start_gyro_calibration : Call

-- The pending requests: `gLocalReloadPending` and its neighbours.
pub record Requests : Type 0 where
  pub reload : Bool
  pub reboot : Bool
  pub path : Bool
  pub eeprom_write : Bool
  pub full_init : Bool
  pub pending_path : List ℕ
  pub request_us : ℕ

-- `sitl_local_set_eeprom_path`; `app_data` is what LOCALAPPDATA holds, and `now` is `micros64`.
pub set_eeprom_path : Option (List ℕ) → Option (List ℕ) → ℕ → Requests → Bool × Requests
set_eeprom_path app_data none now r = (false, r)
set_eeprom_path none (some []) now r =
    (true, record r { pending_path = []; request_us = now; path = true })
set_eeprom_path (some dir) (some []) now r =
    (true, record r { pending_path = dir ++ default_tail; request_us = now; path = true })
set_eeprom_path app_data (some (c ∷ rest)) now r =
    if leb 1024 (length (c ∷ rest))
    then (false, r)
    else (true, record r { pending_path = c ∷ rest; request_us = now; path = true })

-- `sitl_local_reload_config`.
pub reload_config : Bool → ℕ → Requests → Bool × Requests
reload_config running now r =
    if running then (true, record r { request_us = now; reload = true }) else (false, r)

-- `sitlLocalRequestRebootApply`.
pub request_reboot : Requests → Requests
request_reboot r = record r { reboot = true }

-- `localEepromHash`, FNV-1a over the flash mirror.
pub hash_from : ℕ → List ℕ → ℕ
hash_from hash [] = hash
hash_from hash (b ∷ bytes) = hash_from (bit_xor hash b * 16777619 % 2 ^ 32) bytes

pub eeprom_hash : List ℕ → ℕ
eeprom_hash bytes = hash_from 2166136261 bytes

abbrev pub is_open : Option (List ℕ) → Bool
is_open none = false
is_open (some file) = true

module _ {Config : Type 0} (firmware : Firmware Config) where
  -- `localFlushEepromWrite`.
  pub flush_eeprom : Chip Config → Chip Config
  flush_eeprom c =
      let written = firmware.write_eeprom c in
      if is_open written.opened then firmware.config_lock written else written

  -- Whether `GetFileAttributesA` finds no file at a path that is not empty.
  pub is_fresh : List ℕ → Chip Config → Bool
  is_fresh path c = not (length path == 0) && not (is_open (c.disk path))

  -- The switch of the path: the flash is erased for a file that does not exist.
  pub switch_path : List ℕ → Chip Config → Chip Config
  switch_path path c =
      if is_fresh path c
      then record c { mirror = replicate (length c.mirror) 0; env = path }
      else record c { env = path }

  -- The two profile calls, by what the loaded configuration selects.
  pub select_profiles : Config → Config
  select_profiles config =
      let pid = firmware.change_pid_profile (firmware.pid_profile_index config) config in
      firmware.change_rate_profile (firmware.active_rate_profile pid) pid

  -- `loadEEPROM` and the two profile calls after it.
  pub load_values : Chip Config → Chip Config
  load_values c =
      let loaded = firmware.load_eeprom c in
      record loaded { config = select_profiles loaded.config }

  -- The calls of `localRunPendingReloadInternal` once it has decided to apply the configuration.
  pub reapply : Bool → Config → Config → List Call
  reapply full before after =
      apply_link_overrides
      ∷ run_boot_reapply (full || firmware.gyro_filters_changed before after)
      ∷ run_boot_profile_init
      ∷ []

  -- What follows the path switch in `localRunPendingReloadInternal`; `load` is whether the file's
  -- values are read, and `fresh` whether the file is new.
  pub open_selected : Bool → Bool → Requests → Chip Config → Requests × Chip Config × List Call
  open_selected load fresh r c =
      let unlocked = firmware.config_unlock c in
      let valid = if fresh then firmware.ensure_structure unlocked else unlocked in
      let loaded = if load then load_values valid else valid in
      if not fresh && (eeprom_hash unlocked.mirror == eeprom_hash c.mirror)
      then (r, unlocked, [])
      else (record r { full_init = false }, loaded, reapply r.full_init c.config loaded.config)

  -- `localRunPendingReloadInternal`.
  pub run_reload : Bool → Requests → Chip Config → Requests × Chip Config × List Call
  run_reload reread r c =
      let flushed = flush_eeprom c in
      let taken = record r { reload = false; path = false; eeprom_write = false } in
      if r.path
      then open_selected true (is_fresh r.pending_path flushed) taken
          (switch_path r.pending_path flushed)
      else open_selected reread false taken flushed

  -- `localRunPendingReboot`.
  pub run_reboot : Requests → Chip Config → Requests × Chip Config × List Call
  run_reboot r c =
      let (left, end, calls) = run_reload false (record r { reboot = false }) c in
      (left, end, calls ++ blackbox_init ∷ reset_osd_runtime ∷ start_gyro_calibration ∷ [])

  -- The part of `sitl_local_step` that carries out the requests.
  pub run_requests : Bool → Requests → Chip Config → Requests × Chip Config × List Call
  run_requests armed r c =
      if r.reboot
      then (if armed then (r, c, []) else run_reboot r c)
      else (if r.reload || r.path then run_reload true r c else (r, c, []))
