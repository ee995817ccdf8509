-- ===== src/Blackbox/Recorder/OpenLog.antt =====
-- The guard for the log that is open compares the file's name with the path of the open log.
use betaflight_sitl_udp.Base.{
  reverse_onto, ℕ, zero, suc, ◌-◌, ◌%◌, ◌<◌, ◌==◌, ◌≡◌, ◌≢◌, refl, sym, ◌∙◌, ap, Bool, true, false,
  ◌||◌, List, [], ◌∷◌, ◌++◌, Option, none, some, if◌then◌else◌, arith, drop, take, length, if_split,
  same_string, same_string_eq, length-append, length-take, Bool-cases, inl, inr,
}
use betaflight_sitl_udp.Blackbox.{
  Folder, Log, is_log_name, to_log, scan, shift, sort, collect, prune, renumber, enforce, surplus,
  is_open_log, max_path, log_name, five_digits, max_tracked, int_gt, remove_file, rename_file,
}
use betaflight_sitl_udp.Blackbox.Names.{is_log_name-log_name}
use betaflight_sitl_udp.Blackbox.Recorder.{
  Blackbox, open_log, keep_limit, run_pending_prune, open_new_log, take_number,
}

-- The names of the logs have twelve bytes.
abbrev AreNamed : List Log → Type 0
AreNamed [] = Unit
AreNamed (log ∷ logs) = (length log.name ≡ 12) × AreNamed logs

is_log_name-length : (name : List ℕ) → is_log_name name ≡ true → length name ≡ 12
unfolding is_log_name
is_log_name-length name h = ground arith

scan-AreNamed : (room : ℕ) (names : List (List ℕ)) → AreNamed (scan room names)
unfolding scan to_log
scan-AreNamed zero names = tt
scan-AreNamed (suc room) [] = tt
scan-AreNamed (suc room) (name ∷ names) =
    if_split AreNamed (is_log_name name)
      (λ e. (is_log_name-length name e, scan-AreNamed room names))
      (λ e. scan-AreNamed (suc room) names)

shift-AreNamed :
    (key : Log) (sorted : List Log)
    → length key.name ≡ 12
    → AreNamed sorted
    → AreNamed (shift key sorted)
unfolding shift
shift-AreNamed key [] named all = (named, tt)
shift-AreNamed key (log ∷ before) named (first, all) =
    if_split AreNamed (int_gt log.number key.number)
      (λ e. (first, shift-AreNamed key before named all)) (λ e. (named, (first, all)))

sort-AreNamed :
    (sorted logs : List Log) → AreNamed sorted → AreNamed logs → AreNamed (sort sorted logs)
unfolding sort
sort-AreNamed sorted [] done all = done
sort-AreNamed sorted (key ∷ more) done (named, all) =
    sort-AreNamed (shift key sorted) more (shift-AreNamed key sorted named done) all

reverse_onto-AreNamed :
    (done logs : List Log) → AreNamed done → AreNamed logs → AreNamed (reverse_onto done logs)
reverse_onto-AreNamed done [] some_named all = some_named
reverse_onto-AreNamed done (log ∷ logs) some_named (named, all) =
    reverse_onto-AreNamed (log ∷ done) logs (named, some_named) all

take-AreNamed : (k : ℕ) (logs : List Log) → AreNamed logs → AreNamed (take k logs)
take-AreNamed zero logs all = tt
take-AreNamed (suc k) [] all = tt
take-AreNamed (suc k) (log ∷ logs) (named, all) = (named, take-AreNamed k logs all)

drop-AreNamed : (k : ℕ) (logs : List Log) → AreNamed logs → AreNamed (drop k logs)
drop-AreNamed zero logs all = all
drop-AreNamed (suc k) [] all = tt
drop-AreNamed (suc k) (log ∷ logs) (named, all) = drop-AreNamed k logs all

collect-AreNamed : (names : List (List ℕ)) → AreNamed (collect names)
unfolding collect
collect-AreNamed names =
    reverse_onto-AreNamed [] (sort [] (scan max_tracked names)) tt
      (sort-AreNamed [] (scan max_tracked names) tt (scan-AreNamed max_tracked names))

is_open_log_never :
    (open_name name : List ℕ)
    → length open_name ≢ 12
    → length name ≡ 12
    → is_open_log (some open_name) name ≡ false
is_open_log_never open_name name long named = elim (Bool-cases (same_string name open_name)) [
  | inl same ↦ absurd (long (ap length (sym (same_string_eq name open_name same)) ∙ named))
  | inr differ ↦ differ
]

module _ {A : Type 0} (open_name : List ℕ) (long : length open_name ≢ 12) where
  prune_unguarded :
      (logs : List Log) (f : Folder A)
      → AreNamed logs
      → prune (some open_name) logs f ≡ prune none logs f
  unfolding prune
  prune_unguarded [] f all = refl
  prune_unguarded (log ∷ logs) f (named, all) =
      ap (λ b. prune (some open_name) logs (if b then f else remove_file log.name f))
        (is_open_log_never open_name log.name long named)
      ∙ prune_unguarded logs (remove_file log.name f) all

  renumber_unguarded :
      (target : ℕ) (logs : List Log) (f : Folder A)
      → AreNamed logs
      → renumber (some open_name) target logs f ≡ renumber none target logs f
  unfolding renumber
  renumber_unguarded target [] f all = refl
  renumber_unguarded target (log ∷ logs) f (named, all) =
      let next : Bool → Folder A =
        λ b. if b || log.number == target then f else rename_file log.name (log_name target) f in
      ap (λ b. renumber (some open_name) (suc target) logs (next b))
        (is_open_log_never open_name log.name long named)
      ∙ renumber_unguarded (suc target) logs (next false) all

  enforce_unguarded :
      (names : List (List ℕ)) (keep : Option ℕ) (f : Folder A)
      → enforce names keep (some open_name) f ≡ enforce names keep none f
  unfolding enforce
  enforce_unguarded names keep f =
      let logs = collect names in
      let all = collect-AreNamed names in
      let first = surplus keep (length logs) in
      ap (λ g. (length logs - first, g))
        (ap (renumber (some open_name) 1 (drop first logs))
            (prune_unguarded (take first logs) f (take-AreNamed first logs all))
          ∙ renumber_unguarded 1 (drop first logs) (prune none (take first logs) f)
              (drop-AreNamed first logs all))

open_log_unmatched :
    {A : Type 0} (open_name : List ℕ) (names : List (List ℕ)) (keep : Option ℕ) (f : Folder A)
    → 12 < length open_name
    → enforce names keep (open_log open_name) f ≡ enforce names keep none f
unfolding open_log
open_log_unmatched [] names keep f long = absurd (omega arith)
open_log_unmatched (c ∷ rest) names keep f long =
    enforce_unguarded (c ∷ rest) (λ e. omega arith) names keep f

guard_unmatched :
    (open_name name : List ℕ)
    → 12 < length open_name
    → length name ≡ 12
    → is_open_log (open_log open_name) name ≡ false
unfolding open_log
guard_unmatched [] name long named = absurd (omega arith)
guard_unmatched (c ∷ rest) name long named =
    is_open_log_never (c ∷ rest) name (λ e. omega arith) named

length-log_name : (n : ℕ) → length (log_name n) ≡ 12
unfolding log_name five_digits
length-log_name n = refl

open_name_long :
    {A : Type 0} (readdir : Folder A → List (List ℕ)) (opens : List ℕ → Bool) (empty : A)
    (dir : List ℕ) (s : Blackbox A)
    → ((name : List ℕ) → opens name ≡ true)
    → 12 < length (open_new_log readdir opens empty dir s).2.open_name
unfolding open_new_log
open_name_long {A} readdir opens empty dir s success =
    let number = (take_number readdir (some dir) s).0 in
    let name = log_name (number % 100000) in
    let path = dir ++ 0x5c ∷ name in
    if_split {A = ℕ × Bool × Blackbox A} (λ t. 12 < length t.2.open_name) (opens name)
      (λ e. omega (
        arith,
        length-take (max_path - 1) path,
        length-append dir (0x5c ∷ name),
        length-log_name (number % 100000),
      ))
      (λ e. absurd (let yes = success name in cc))

-- The housekeeping after a log was opened does not know it: the guard is the path of the log, so that
-- it does not match the name of the very log that was opened, which is a log's name, nor any other, and
-- pruning and renumbering go on as if no log were open.
pub open_log_unguarded :
    {A : Type 0} (readdir : Folder A → List (List ℕ)) (opens : List ℕ → Bool) (empty : A)
    (dir : List ℕ) (s : Blackbox A)
    → ((name : List ℕ) → opens name ≡ true)
    → let (number, opened, t) = open_new_log readdir opens empty dir s in
      (is_log_name (log_name (number % 100000)) ≡ true)
      × ((name : List ℕ)
          → is_log_name name ≡ true
          → is_open_log (open_log t.open_name) name ≡ false)
      × ((run_pending_prune readdir (some dir) t).folder
          ≡ (enforce (readdir t.folder) (keep_limit t.max_logs) none t.folder).1)
unfolding run_pending_prune
open_log_unguarded {A} readdir opens empty dir s success =
    let (number, opened, t) = open_new_log readdir opens empty dir s in
    let long = open_name_long readdir opens empty dir s success in
    (
      is_log_name-log_name (number % 100000),
      (λ name named. guard_unmatched t.open_name name long (is_log_name-length name named)),
      ap (λ (r : ℕ × Folder A). r.1)
          (open_log_unmatched t.open_name (readdir t.folder) (keep_limit t.max_logs) t.folder long),
    )
