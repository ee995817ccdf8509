-- ===== src/Blackbox/Examples.antt =====
-- A folder with three logs and a note, with a limit of two.
use mathlib.Core.List.{Permᴰ}
use betaflight_sitl_udp.Base.{
  ℕ, ◌+◌, ◌-◌, ◌%◌, ◌^◌, ◌==◌, ◌≡◌, refl, ◌∙◌, ap, true, false, List, [], ◌∷◌, ◌++◌, Option, none,
  some, if◌then◌else◌, arith, map, length,
}
use betaflight_sitl_udp.Blackbox.{
  Folder, log_name, five_digits, is_log_name, to_log, atoi, atoi_digits, enforce, is_open_log,
}
use betaflight_sitl_udp.Blackbox.Names.{is_log_name-log_name, to_log-log_name}
use betaflight_sitl_udp.Blackbox.Window.{IsWindow, IsOther, renumbered, number_of}
use betaflight_sitl_udp.Blackbox.Sorting.{Lists}
use betaflight_sitl_udp.Blackbox.Retention.{IsIdle, newest, enforce_lem}
use betaflight_sitl_udp.Blackbox.Recorder.{
  Blackbox, open_log, virtual_open, open_new_log, run_pending_prune, keep_limit,
}
use betaflight_sitl_udp.Blackbox.Recorder.Opening.{open_after_boot}
use betaflight_sitl_udp.Blackbox.Recorder.OpenLog.{open_log_unguarded}

name_of_42 :
    log_name 42
    ≡ b'L' ∷ b'O' ∷ b'G' ∷ b'0' ∷ b'0' ∷ b'0' ∷ b'4' ∷ b'2' ∷ b'.' ∷ b'B' ∷ b'F' ∷ b'L' ∷ []
unfolding log_name five_digits
name_of_42 = refl

-- A signed number is taken as `int` does.
minus_one : atoi (b'-' ∷ b'1' ∷ []) ≡ 2 ^ 32 - 1
unfolding atoi atoi_digits
minus_one = refl

stored : ℕ → Option ℕ
stored n =
    if n == 3 then some 30 else (if n == 7 then some 70 else (if n == 9 then some 90 else none))

abbrev note : List ℕ
note = b'n' ∷ b'o' ∷ b't' ∷ b'e' ∷ []

abbrev three_logs : Folder ℕ
three_logs = record {
  data_of = λ q. if is_log_name q then stored (to_log q).number else none;
  in_use = λ q. false;
}

abbrev listing : List (List ℕ)
listing = log_name 9 ∷ note ∷ log_name 3 ∷ log_name 7 ∷ []

abbrev logs : List (ℕ × ℕ)
logs = (3, 30) ∷ (7, 70) ∷ (9, 90) ∷ []

held : (m : ℕ) → three_logs.data_of (log_name m) ≡ stored (m % 100000)
held m =
    ap (λ b. if b then stored (to_log (log_name m)).number else none) (is_log_name-log_name m)
    ∙ ap (λ log. stored log.number) (to_log-log_name m)

three_logs-IsWindow : IsWindow 1 logs three_logs.data_of
unfolding stored
three_logs-IsWindow = (
  omega arith,
  omega arith,
  (λ m lo hi. held m ∙ ground arith),
  held 3,
  (
    omega arith,
    omega arith,
    (λ m lo hi. held m ∙ ground arith),
    held 7,
    (
      omega arith,
      omega arith,
      (λ m lo hi. held m ∙ ground arith),
      held 9,
      λ m lo hi. held m ∙ ground arith,
    ),
  ),
)

listed : Lists listing (map number_of logs)
unfolding is_log_name log_name five_digits
listed = (
  9 ∷ 3 ∷ 7 ∷ [],
  Permᴰ.trans (Permᴰ.swap refl refl) (Permᴰ.cons refl (Permᴰ.swap refl refl)),
  refl,
)

enforce_lem_example :
    let (kept, g) = enforce listing (some 2) none three_logs in
    (kept ≡ 2)
    × IsWindow 1 ((1, 70) ∷ (2, 90) ∷ []) g.data_of
    × ((q : List ℕ) → IsOther 1 q → g.data_of q ≡ three_logs.data_of q)
    × IsIdle g
enforce_lem_example =
    enforce_lem listing (some 2) logs three_logs (λ q. refl) three_logs-IsWindow listed
      (omega arith)

abbrev resting : Blackbox ℕ
resting = record {
  folder = three_logs;
  max_logs = 10;
  next_number = 0;
  open_name = [];
  prune_request = false;
}

abbrev home : List ℕ
home = b'C' ∷ b':' ∷ []

open_after_boot_example :
    let booted = virtual_open (λ f. listing) (some home) resting in
    let (number, opened, t) = open_new_log (λ f. listing) (λ name. true) 0 home booted in
    let kept = newest (keep_limit 10) logs in
    (number ≡ 1 + length kept)
    × (opened ≡ true)
    × (booted.folder.data_of (log_name number) ≡ none)
    × IsWindow 1 (renumbered 1 kept ++ (number, 0) ∷ []) t.folder.data_of
open_after_boot_example =
    open_after_boot (λ f. listing) (λ name. true) 0 home logs resting (λ q. refl)
      three_logs-IsWindow listed (omega arith) (omega arith) (λ name. refl)

-- The same folder once the log that is open has been made.
abbrev relisting : List (List ℕ)
relisting = log_name 10 ∷ listing

open_log_unguarded_example :
    let (number, opened, t) = open_new_log (λ f. relisting) (λ name. true) 0 home resting in
    (is_log_name (log_name (number % 100000)) ≡ true)
    × ((name : List ℕ) → is_log_name name ≡ true → is_open_log (open_log t.open_name) name ≡ false)
    × ((run_pending_prune (λ f. relisting) (some home) t).folder
        ≡ (enforce relisting (keep_limit t.max_logs) none t.folder).1)
open_log_unguarded_example =
    open_log_unguarded (λ f. relisting) (λ name. true) 0 home resting (λ name. refl)
