-- ===== src/Blackbox/Recorder.antt =====
-- The state that the blackbox keeps beside the folder, in src/wincompat.c, and the operations on it:
-- the boot (`blackboxVirtualOpen`), the opening of a log (`sitlBlackboxFopen`), the housekeeping of the
-- MSP thread, and the host's settings. The folder's path is what `sitlBlackboxDir` gives; the order in
-- which `readdir` gives the names is a parameter, and so is whether `fopen` succeeds. `LONG` is a word
-- of 32 bits. The firmware's own `blackboxVirtualOpen` and the buffering are not modelled.
pub mod Opening
pub mod OpenLog
use betaflight_sitl_udp.Base.{
  ℕ, ◌+◌, ◌-◌, ◌%◌, ◌^◌, ◌==◌, Bool, true, false, ◌&&◌, ◌||◌, not, List, [], ◌∷◌, ◌++◌, Option,
  none, some, ltb, leb, if◌then◌else◌, add32, length, take, same_string,
}
use betaflight_sitl_udp.Blackbox.{
  Folder, Log, enforce, collect, int_gt, is_log_name, log_name, max_path,
}

-- "\Betaflight-SITL\blackbox"
abbrev pub default_folder : List ℕ
default_folder =
    0x5c ∷ b'B' ∷ b'e' ∷ b't' ∷ b'a' ∷ b'f' ∷ b'l' ∷ b'i' ∷ b'g' ∷ b'h' ∷ b't' ∷ b'-' ∷ b'S' ∷ b'I'
    ∷ b'T' ∷ b'L' ∷ 0x5c ∷ b'b' ∷ b'l' ∷ b'a' ∷ b'c' ∷ b'k' ∷ b'b' ∷ b'o' ∷ b'x' ∷ []

-- `sitlBlackboxDir`, for a buffer of the size: the host's choice, BF_SITL_BLACKBOX_DIR, or else a
-- folder under LOCALAPPDATA.
pub blackbox_dir : List ℕ → Option (List ℕ) → Option (List ℕ) → ℕ → Option (List ℕ)
blackbox_dir (c ∷ path) env app_data size =
    if ltb size (length (c ∷ path) + 1) then none else some (c ∷ path)
blackbox_dir [] (some (c ∷ path)) app_data size =
    if ltb size (length (c ∷ path) + 1) then none else some (c ∷ path)
blackbox_dir [] env none size = none
blackbox_dir [] env (some parent) size = some (take size (parent ++ default_folder))

pub record Blackbox (A : Type 0) : Type 0 where
  pub folder : Folder A
  pub max_logs : ℕ
  pub next_number : ℕ
  pub open_name : List ℕ
  pub prune_request : Bool

-- The limit that the cap stands for: 0 is none.
pub keep_limit : ℕ → Option ℕ
keep_limit max_logs = if ltb 0 max_logs then some max_logs else none

-- `gBlackboxOpenLogName`, as it is passed on: NULL where it is empty.
pub open_log : List ℕ → Option (List ℕ)
open_log [] = none
open_log (c ∷ name) = some (c ∷ name)

-- The largest number, from one on.
pub highest : ℕ → List Log → ℕ
highest most [] = most
highest most (log ∷ logs) = highest (if int_gt log.number most then log.number else most) logs

-- Where `sitlBlackboxFopen` creates a log of its own: the mode is "w" or "wb".
pub is_new_log : List ℕ → List ℕ → Bool
is_new_log filename [] = false
is_new_log filename (c ∷ []) = is_log_name filename && c == b'w'
is_new_log filename (c ∷ d ∷ mode) = is_log_name filename && c == b'w' && d == b'b'

module _ {A : Type 0} where
  -- `sitlBlackboxTakePendingPrune`.
  pub take_pending_prune : Blackbox A → Bool × Blackbox A
  take_pending_prune s = (s.prune_request, record s { prune_request = false })

  -- `fopen` for writing makes the file empty and leaves it open.
  pub create_file : A → List ℕ → Folder A → Folder A
  create_file empty name f = record f {
    data_of = λ q. if same_string name q then some empty else f.data_of q;
    in_use = λ q. same_string name q || f.in_use q;
  }

module _ {A : Type 0} (readdir : Folder A → List (List ℕ)) where
  -- `sitlBlackboxSeedFromDisk`.
  pub seed_from_disk : Option (List ℕ) → Blackbox A → Blackbox A
  seed_from_disk none s = record s { next_number = 0 }
  seed_from_disk (some dir) s = record s { next_number = highest 0 (collect (readdir s.folder)) }

  -- `sitlBlackboxNextNumber`.
  pub take_number : Option (List ℕ) → Blackbox A → ℕ × Blackbox A
  take_number dir s =
      let ready = if int_gt s.next_number 0 then s else seed_from_disk dir s in
      let number = add32 ready.next_number 1 in (number, record ready { next_number = number })

  -- `sitlBlackboxRunPendingPrune`.
  pub run_pending_prune : Option (List ℕ) → Blackbox A → Blackbox A
  run_pending_prune none s = s
  run_pending_prune (some dir) s =
      let (kept, folder) =
        enforce (readdir s.folder) (keep_limit s.max_logs) (open_log s.open_name) s.folder in
      record s { folder = folder }

  -- `blackboxVirtualOpen`, after the setting was read.
  pub virtual_open : Option (List ℕ) → Blackbox A → Blackbox A
  virtual_open none s = s
  virtual_open (some dir) s =
      let (kept, folder) = enforce (readdir s.folder) (keep_limit s.max_logs) none s.folder in
      record s { folder = folder; next_number = kept }

  -- `sitl_local_set_blackbox_max_logs` for a number that is not negative.
  pub set_max_logs : Option (List ℕ) → ℕ → Blackbox A → Bool × Blackbox A
  set_max_logs none count s =
      if ltb 100000 count then (false, s) else (true, record s { max_logs = count })
  set_max_logs (some dir) count s =
      let (kept, folder) =
        enforce (readdir s.folder) (keep_limit count) (open_log s.open_name) s.folder in
      if ltb 100000 count
      then (false, s)
      else (true, record s { max_logs = count; folder = folder; next_number = kept })

  -- The part of `sitlBlackboxFopen` for a new log, without BF_SITL_BLACKBOX_LEGACY_OPEN; `opens` is
  -- whether `fopen` succeeds. The number of the log, and whether it was opened.
  pub open_new_log : (List ℕ → Bool) → A → List ℕ → Blackbox A → ℕ × Bool × Blackbox A
  open_new_log opens empty dir s =
      let (number, counted) = take_number (some dir) s in
      let name = log_name (number % 100000) in
      if opens name
      then (
        number,
        true,
        record counted {
          folder = create_file empty name counted.folder;
          open_name = take (max_path - 1) (dir ++ 0x5c ∷ name);
          prune_request = true;
        },
      )
      else (number, false, counted)
