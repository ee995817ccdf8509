-- ===== src/Blackbox.antt =====
-- The blackbox logs of src/wincompat.c: which files of the folder are logs, how they are collected in
-- the order of their numbers (`sitlBlackboxCollect`), pruned and renumbered (`sitlBlackboxEnforce`),
-- and how a new log gets its number (`sitlBlackboxFopen` and its neighbours). The folder is what each
-- name holds, and which files are open; `readdir` is a parameter. A C string is the list of its bytes
-- before the terminator; an `int` is a word of 32 bits.
pub mod Names
pub mod Window
pub mod Sorting
pub mod Retention
pub mod Recorder
mod Examples
use betaflight_sitl_udp.Base.{
  reverse_onto, ℕ, zero, suc, ◌+◌, ◌-◌, ◌*◌, ◌/◌, ◌%◌, ◌^◌, ◌==◌, Bool, true, false, ◌&&◌, ◌||◌,
  not, List, [], ◌∷◌, ◌++◌, Option, none, some, ltb, leb, if◌then◌else◌, add32, u32, length, take,
  drop, same_string,
}

abbrev pub max_tracked : ℕ
max_tracked = 1024

abbrev pub max_path : ℕ
max_path = 260

-- "LOG" and ".BFL"
abbrev pub log_prefix : List ℕ
log_prefix = b'L' ∷ b'O' ∷ b'G' ∷ []

abbrev pub log_suffix : List ℕ
log_suffix = b'.' ∷ b'B' ∷ b'F' ∷ b'L' ∷ []

abbrev pub digit : ℕ → ℕ
digit n = 48 + n % 10

-- What `%05d` prints for a number of up to five digits.
pub five_digits : ℕ → List ℕ
five_digits n =
    digit (n / 10000) ∷ digit (n / 1000) ∷ digit (n / 100) ∷ digit (n / 10) ∷ digit n ∷ []

-- "LOG%05d.BFL"
pub log_name : ℕ → List ℕ
log_name n = log_prefix ++ (five_digits n ++ log_suffix)

-- `sitlIsBlackboxLogName`.
pub is_log_name : List ℕ → Bool
is_log_name name =
    length name == 12
    && same_string (take 3 name) log_prefix
    && same_string (drop 8 name) log_suffix

-- `atoi`, as C defines it.
pub atoi_digits : ℕ → List ℕ → ℕ
atoi_digits sum [] = sum
atoi_digits sum (c ∷ text) =
    let more = atoi_digits (u32 (sum * 10 + (c - 48))) text in
    if leb 48 c && leb c 57 then more else sum

pub atoi : List ℕ → ℕ
atoi [] = 0
atoi (c ∷ text) =
    let rest = atoi text in
    if c == 32 || (leb 9 c && leb c 13)
    then rest
    else (if c == 45
        then u32 (2 ^ 32 - atoi_digits 0 text)
        else (if c == 43 then atoi_digits 0 text else atoi_digits 0 (c ∷ text)))

pub record Log : Type 0 where
  pub number : ℕ
  pub name : List ℕ

pub to_log : List ℕ → Log
to_log name = record { number = atoi (drop 3 name); name = name }

-- The loop over `readdir`.
pub scan : ℕ → List (List ℕ) → List Log
scan zero names = []
scan (suc room) [] = []
scan (suc room) (name ∷ names) =
    let counted = scan room names in
    let skipped = scan (suc room) names in
    if is_log_name name then to_log name ∷ counted else skipped

-- `a > b` on `int`.
pub int_gt : ℕ → ℕ → Bool
int_gt a b = ltb ((b + 2 ^ 31) % 2 ^ 32) ((a + 2 ^ 31) % 2 ^ 32)

-- The inner loop of the insertion sort. The sorted part of the array stands in reverse.
pub shift : Log → List Log → List Log
shift key [] = key ∷ []
shift key (log ∷ before) =
    let rest = shift key before in
    if int_gt log.number key.number then log ∷ rest else key ∷ log ∷ before

pub sort : List Log → List Log → List Log
sort sorted [] = sorted
sort sorted (key ∷ more) = sort (shift key sorted) more

-- `sitlBlackboxCollect`.
pub collect : List (List ℕ) → List Log
collect names = reverse_onto [] (sort [] (scan max_tracked names))

-- What the files of the folder hold, and which of them are open.
pub record Folder (A : Type 0) : Type 0 where
  pub data_of : List ℕ → Option A
  pub in_use : List ℕ → Bool

-- Where a log stands that must not be touched, by the `openLogName` that is passed.
abbrev pub is_open_log : Option (List ℕ) → List ℕ → Bool
is_open_log none name = false
is_open_log (some open_name) name = same_string name open_name

-- How many logs are to go; without a limit, none.
abbrev pub surplus : Option ℕ → ℕ → ℕ
surplus none count = 0
surplus (some keep) count = count - keep

module _ {A : Type 0} where
  -- `remove` on Windows.
  pub remove_file : List ℕ → Folder A → Folder A
  remove_file name f =
      if f.in_use name
      then f
      else record f { data_of = λ q. if same_string name q then none else f.data_of q }

  -- `rename` on Windows, which does not replace a file.
  pub rename_from : Option A → Option A → List ℕ → List ℕ → Folder A → Folder A
  rename_from none there from to f = f
  rename_from (some held) (some other) from to f = f
  rename_from (some held) none from to f = record f {
    data_of = λ q.
        if same_string to q then some held else (if same_string from q then none else f.data_of q);
  }

  pub rename_file : List ℕ → List ℕ → Folder A → Folder A
  rename_file from to f =
      if f.in_use from then f else rename_from (f.data_of from) (f.data_of to) from to f

  -- The first loop of `sitlBlackboxEnforce`.
  pub prune : Option (List ℕ) → List Log → Folder A → Folder A
  prune open_log [] f = f
  prune open_log (log ∷ logs) f =
      prune open_log logs (if is_open_log open_log log.name then f else remove_file log.name f)

  -- The second loop of `sitlBlackboxEnforce`, from a target on.
  pub renumber : Option (List ℕ) → ℕ → List Log → Folder A → Folder A
  renumber open_log target [] f = f
  renumber open_log target (log ∷ logs) f = renumber open_log (suc target) logs (
      if is_open_log open_log log.name || log.number == target
      then f
      else rename_file log.name (log_name target) f)

  -- `sitlBlackboxEnforce`.
  pub enforce : List (List ℕ) → Option ℕ → Option (List ℕ) → Folder A → ℕ × Folder A
  enforce names keep open_log f =
      let logs = collect names in
      let first = surplus keep (length logs) in
      (
        length logs - first,
        renumber open_log 1 (drop first logs) (prune open_log (take first logs) f),
      )
