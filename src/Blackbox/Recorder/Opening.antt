-- ===== src/Blackbox/Recorder/Opening.antt =====
-- The first log after a boot.
use betaflight_sitl_udp.Base.{
  ℕ, suc, ◌+◌, ◌-◌, ◌%◌, ◌^◌, ◌≤◌, ◌<◌, ◌≡◌, ◌≢◌, refl, sym, ◌∙◌, ap, Bool, true, false, List, [],
  ◌∷◌, ◌++◌, Option, none, some, if◌then◌else◌, arith, map, take, length, length-drop, if_split,
  subst, same_string, same_string_eq, same_string_refl, ltb, add32,
}
use betaflight_sitl_udp.Blackbox.{max_path, Folder, log_name, max_tracked, surplus, int_gt}
use betaflight_sitl_udp.Blackbox.Names.{log_name_injective}
use betaflight_sitl_udp.Blackbox.Window.{IsWindow, renumbered, number_of}
use betaflight_sitl_udp.Blackbox.Sorting.{Lists}
use betaflight_sitl_udp.Blackbox.Retention.{IsIdle, newest, enforce_lem}
use betaflight_sitl_udp.Blackbox.Recorder.{
  Blackbox, keep_limit, take_number, seed_from_disk, virtual_open, create_file, open_new_log,
}

module _ {A : Type 0} where
  -- The number after the last is free.
  IsWindow-end :
      (low : ℕ) (logs : List (ℕ × A)) (held : List ℕ → Option A)
      → IsWindow low (renumbered low logs) held
      → low + length logs < 100000
      → held (log_name (low + length logs)) ≡ none
  IsWindow-end low [] held window small = window (low + 0) (omega arith) small
  IsWindow-end low ((n, c) ∷ logs) held (le, below, gap, there, rest) small =
      ap (λ k. held (log_name k)) (omega arith)
      ∙ IsWindow-end (suc low) logs held rest (omega arith)

  IsWindow-append :
      (low : ℕ) (logs : List (ℕ × A)) (held grown : List ℕ → Option A) (c : A)
      → IsWindow low (renumbered low logs) held
      → low + length logs < 100000
      → ((m : ℕ) → m ≢ low + length logs → m < 100000 → grown (log_name m) ≡ held (log_name m))
      → grown (log_name (low + length logs)) ≡ some c
      → IsWindow low (renumbered low logs ++ (low + length logs, c) ∷ []) grown
  IsWindow-append low [] held grown c window small same there = (
    omega arith,
    small,
    (λ m lo hi. absurd (omega arith)),
    there,
    λ m lo hi. same m (λ e. omega arith) hi ∙ window m (omega arith) hi,
  )
  IsWindow-append low ((n, d) ∷ logs) held grown c (le, below, gap, stands, rest) small same there =
      let next : suc low + length logs ≡ low + suc (length logs) = omega arith in
      (
        omega arith,
        below,
        (λ m lo hi. absurd (omega arith)),
        same low (λ e. omega arith) below ∙ stands,
        subst (λ k. IsWindow (suc low) (renumbered (suc low) logs ++ (k, c) ∷ []) grown) next
            (IsWindow-append (suc low) logs held grown c rest (omega arith)
              (λ m other hi. same m (λ e. other (e ∙ sym next)) hi)
              (ap (λ k. grown (log_name k)) next ∙ there)),
      )

  create_file_lem :
      (empty : A) (name : List ℕ) (f : Folder A)
      → let g = create_file empty name f in
        (g.data_of name ≡ some empty) × ((q : List ℕ) → q ≢ name → g.data_of q ≡ f.data_of q)
  unfolding create_file
  create_file_lem empty name f = (
    ap (λ b. if b then some empty else f.data_of name) (same_string_refl name),
    λ q other.
        if_split (λ found. found ≡ f.data_of q) (same_string name q)
          (λ e. absurd (other (sym (same_string_eq name q e)))) (λ e. refl),
  )

  newest_some :
      (max_logs : ℕ) (logs : List (ℕ × A))
      → 0 < length logs
      → 0 < length (newest (keep_limit max_logs) logs)
  unfolding keep_limit
  newest_some max_logs logs some_log =
      if_split (λ keep. 0 < length (newest keep logs)) (ltb 0 max_logs)
        (λ e. ground (arith, length-drop (length logs - max_logs) logs))
        (λ e. omega (arith, length-drop 0 logs))

  -- A counter that is set is not read from the folder again.
  take_number_lem :
      (readdir : Folder A → List (List ℕ)) (dir : List ℕ) (s : Blackbox A)
      → 0 < s.next_number
      → s.next_number < 100000
      → take_number readdir (some dir) s
        ≡ (s.next_number + 1, record s { next_number = s.next_number + 1 })
  unfolding take_number int_gt
  take_number_lem readdir dir s pos small =
      let test : ltb ((0 + 2 ^ 31) % 2 ^ 32) ((s.next_number + 2 ^ 31) % 2 ^ 32) ≡ true =
        ground arith in
      let next : Blackbox A → ℕ × Blackbox A = λ (ready : Blackbox A).
        (add32 ready.next_number 1, record ready { next_number = add32 ready.next_number 1 }) in
      ap (λ b. next (if b then s else seed_from_disk readdir (some dir) s)) test
      ∙ ap (λ (n : ℕ). (n, record s { next_number = n })) (omega arith)

  -- What `open_new_log` leaves where the counter is set and the file opens.
  abbrev opened_log : A → List ℕ → Blackbox A → Blackbox A
  opened_log empty dir s = record s {
    next_number = s.next_number + 1;
    folder = create_file empty (log_name (s.next_number + 1)) s.folder;
    open_name = take (max_path - 1) (dir ++ 0x5c ∷ log_name (s.next_number + 1));
    prune_request = true;
  }

  open_new_log_lem :
      (readdir : Folder A → List (List ℕ)) (opens : List ℕ → Bool) (empty : A) (dir : List ℕ)
      (s : Blackbox A)
      → 0 < s.next_number
      → s.next_number ≤ max_tracked
      → ((name : List ℕ) → opens name ≡ true)
      → open_new_log readdir opens empty dir s ≡ (s.next_number + 1, true, opened_log empty dir s)
  unfolding open_new_log
  open_new_log_lem readdir opens empty dir s pos small success =
      let n = s.next_number + 1 in
      let counted = record s { next_number = n } in
      let open_as : List ℕ → ℕ × Bool × Blackbox A = λ name. (
        n,
        true,
        record counted {
          folder = create_file empty name counted.folder;
          open_name = take (max_path - 1) (dir ++ 0x5c ∷ name);
          prune_request = true;
        },
      ) in
      let open_with : ℕ × Blackbox A → ℕ × Bool × Blackbox A = λ (number, ready).
        if opens (log_name (number % 100000))
        then (
          number,
          true,
          record ready {
            folder = create_file empty (log_name (number % 100000)) ready.folder;
            open_name = take (max_path - 1) (dir ++ 0x5c ∷ log_name (number % 100000));
            prune_request = true;
          },
        )
        else (number, false, ready) in
      ap open_with (take_number_lem readdir dir s pos (omega arith))
      ∙ ap (λ b. if b then open_as (log_name (n % 100000)) else (n, false, counted))
          (success (log_name (n % 100000)))
      ∙ ap (λ k. open_as (log_name k)) (omega arith)

  -- Where the blackbox starts with a folder that has logs, with numbers from 1 to 99999, none of them
  -- open and not more than the scan takes, and then creates a log: the log gets the number after the
  -- ones that are kept, no file has had its name, so that none is overwritten, and the folder's logs
  -- are the kept ones, renumbered, and the new one.
  pub open_after_boot :
      (readdir : Folder A → List (List ℕ)) (opens : List ℕ → Bool) (empty : A) (dir : List ℕ)
      (logs : List (ℕ × A)) (s : Blackbox A)
      → IsIdle s.folder
      → IsWindow 1 logs s.folder.data_of
      → Lists (readdir s.folder) (map number_of logs)
      → 0 < length logs
      → length logs ≤ max_tracked
      → ((name : List ℕ) → opens name ≡ true)
      → let booted = virtual_open readdir (some dir) s in
        let (number, opened, t) = open_new_log readdir opens empty dir booted in
        let kept = newest (keep_limit s.max_logs) logs in
        (number ≡ 1 + length kept)
        × (opened ≡ true)
        × (booted.folder.data_of (log_name number) ≡ none)
        × IsWindow 1 (renumbered 1 kept ++ (number, empty) ∷ []) t.folder.data_of
  unfolding virtual_open
  open_after_boot readdir opens empty dir logs s idle window listed some_log few success =
      let keep = keep_limit s.max_logs in
      let kept = newest keep logs in
      let booted = virtual_open readdir (some dir) s in
      let (count, after, others, free) =
        enforce_lem (readdir s.folder) keep logs s.folder idle window listed few in
      let short : length kept ≤ length logs =
        omega (arith, length-drop (surplus keep (length logs)) logs) in
      let many : 0 < length kept = newest_some s.max_logs logs some_log in
      let n = booted.next_number + 1 in
      let number : n ≡ 1 + length kept = omega arith in
      let grown = create_file empty (log_name n) booted.folder in
      let (made, same) = create_file_lem empty (log_name n) booted.folder in
      subst {A = ℕ × Bool × Blackbox A}
        (λ t.
          (t.0 ≡ 1 + length kept)
          × (t.1 ≡ true)
          × (booted.folder.data_of (log_name t.0) ≡ none)
          × IsWindow 1 (renumbered 1 kept ++ (t.0, empty) ∷ []) t.2.folder.data_of)
        (sym (open_new_log_lem readdir opens empty dir booted (omega arith) (omega arith) success))
        (
          number,
          refl,
          ap (λ k. booted.folder.data_of (log_name k)) number
              ∙ IsWindow-end 1 kept booted.folder.data_of after (omega arith),
          subst (λ k. IsWindow 1 (renumbered 1 kept ++ (k, empty) ∷ []) grown.data_of) (sym number)
              (IsWindow-append 1 kept booted.folder.data_of grown.data_of empty after (omega arith)
                (λ m other hi.
                  same (log_name m)
                    (λ e. other (log_name_injective m n hi (omega arith) e ∙ number)))
                (ap (λ k. grown.data_of (log_name k)) (sym number) ∙ made)),
        )
