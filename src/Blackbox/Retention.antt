-- ===== src/Blackbox/Retention.antt =====
-- What pruning and renumbering make of a folder.
use betaflight_sitl_udp.Base.{
  ℕ, zero, suc, ◌-◌, ◌%◌, ◌≤◌, ◌<◌, ◌==◌, ◌≡◌, ◌≢◌, refl, sym, ◌∙◌, ap, false, List, [], ◌∷◌,
  Option, none, some, arith, map, drop, take, length, length-drop, if_split, subst, ==_iff,
  Bool-cases, inl, inr,
}
use betaflight_sitl_udp.Blackbox.{
  Folder, Log, log_name, remove_file, rename_file, prune, renumber, enforce, collect, surplus,
  max_tracked,
}
use betaflight_sitl_udp.Blackbox.Names.{log_at, log_name_injective}
use betaflight_sitl_udp.Blackbox.Window.{
  IsWindow, IsOther, renumbered, widen, remove_file_lem, rename_file_lem, number_of,
}
use betaflight_sitl_udp.Blackbox.Sorting.{Lists, Ascends, Ascends-sooner, collect_lem}

module _ {A : Type 0} where
  numbers_of : List (ℕ × A) → List ℕ
  numbers_of logs = map number_of logs

  -- No file of the folder is open.
  abbrev pub IsIdle : Folder A → Type 0
  IsIdle f = (q : List ℕ) → f.in_use q ≡ false

  prune_lem :
      (low k : ℕ) (logs : List (ℕ × A)) (f : Folder A)
      → IsIdle f
      → IsWindow low logs f.data_of
      → let g = prune none (take k (map log_at (map number_of logs))) f in
        IsWindow low (drop k logs) g.data_of
        × ((q : List ℕ) → IsOther low q → g.data_of q ≡ f.data_of q)
        × IsIdle g
  unfolding prune
  prune_lem low zero logs f idle window = (window, (λ q other. refl), idle)
  prune_lem low (suc k) [] f idle window = (window, (λ q other. refl), idle)
  prune_lem low (suc k) ((n, c) ∷ logs) f idle (le, small, gap, there, rest) =
      let g = remove_file (log_name n) f in
      let (gone, kept, in_use) = remove_file_lem (log_name n) f (idle (log_name n)) in
      let same : (m : ℕ) → m ≢ n → m < 100000 → g.data_of (log_name m) ≡ f.data_of (log_name m) =
        λ m other hi. kept (log_name m) (λ e. other (log_name_injective m n hi small e)) in
      let window : IsWindow low logs g.data_of =
        widen low (suc n) logs f.data_of g.data_of (λ m lo hi. same m (omega arith) hi)
          (λ m lo hi top. elim (Bool-cases (m == n)) [
            | inl equal ↦ ap (λ k. g.data_of (log_name k)) ((==_iff m n).0 equal) ∙ gone
            | inr differ ↦ same m (ground arith) top ∙ gap m lo (ground arith)
          ])
          (omega arith) rest in
      let idle_now : IsIdle g = λ q. ap (λ u. u q) in_use ∙ idle q in
      let (after, others, idle_then) = prune_lem low k logs g idle_now window in
      (after, (λ q other. others q other ∙ kept q (other n le small)), idle_then)

  -- Once the first log stands at the target, and nothing else has changed.
  renumber_next :
      (target : ℕ) (c : A) (logs : List (ℕ × A)) (f g : Folder A)
      → target < 100000
      → IsIdle g
      → g.data_of (log_name target) ≡ some c
      → IsWindow (suc target) logs g.data_of
      → ((q : List ℕ) → IsOther target q → g.data_of q ≡ f.data_of q)
      → ((h : Folder A)
          → IsWindow (suc target) (renumbered (suc target) logs) h.data_of
          → ((q : List ℕ) → IsOther (suc target) q → h.data_of q ≡ g.data_of q)
          → IsWindow target (renumbered target ((0, c) ∷ logs)) h.data_of
            × ((q : List ℕ) → IsOther target q → h.data_of q ≡ f.data_of q))
  renumber_next target c logs f g small idle there window kept h after others = (
    (
      omega arith,
      small,
      (λ m lo hi. absurd (omega arith)),
      others (log_name target)
            (λ m lo hi e. absurd (let same = log_name_injective target m small hi e in omega arith))
          ∙ there,
      after,
    ),
    (λ q other. others q (λ m lo hi. other m (omega arith) hi) ∙ kept q other),
  )

  renumber_lem :
      (target : ℕ) (logs : List (ℕ × A)) (f : Folder A)
      → IsIdle f
      → IsWindow target logs f.data_of
      → let g = renumber none target (map log_at (map number_of logs)) f in
        IsWindow target (renumbered target logs) g.data_of
        × ((q : List ℕ) → IsOther target q → g.data_of q ≡ f.data_of q)
        × IsIdle g
  unfolding renumber
  renumber_lem target [] f idle window = (window, (λ q other. refl), idle)
  renumber_lem target ((n, c) ∷ logs) f idle (le, small, gap, there, rest) =
      let later = map log_at (map number_of logs) in
      let step : (g : Folder A) → Type 0 = λ g.
        let h = renumber none (suc target) later g in
        IsWindow target (renumbered target ((n, c) ∷ logs)) h.data_of
        × ((q : List ℕ) → IsOther target q → h.data_of q ≡ f.data_of q)
        × IsIdle h in
      let next : (g : Folder A)
          → IsIdle g
          → g.data_of (log_name target) ≡ some c
          → IsWindow (suc target) logs g.data_of
          → ((q : List ℕ) → IsOther target q → g.data_of q ≡ f.data_of q)
          → step g =
        λ g free first window kept.
          let (after, others, done) = renumber_lem (suc target) logs g free window in
          let h = renumber none (suc target) later g in
          let (whole, same) =
            renumber_next target c logs f g (omega arith) free first window kept h after others in
          (whole, same, done) in
      if_split step (n % 100000 == target)
        (λ e.
          let equal : n ≡ target = omega (arith, (==_iff (n % 100000) target).0 e) in
          next f idle (ap (λ k. f.data_of (log_name k)) (sym equal) ∙ there)
            (subst (λ k. IsWindow k logs f.data_of) (omega arith) rest) (λ q other. refl))
        (λ e.
          let less : target < n = ground arith in
          let g = rename_file (log_name n) (log_name target) f in
          let (put, left, kept, in_use) =
            rename_file_lem (log_name n) (log_name target) f c (idle (log_name n)) there
              (gap target (omega arith) less) in
          let same : (m : ℕ)
              → m ≢ n
              → m ≢ target
              → m < 100000
              → g.data_of (log_name m) ≡ f.data_of (log_name m) =
            λ m not_n not_target hi.
              kept (log_name m) (λ d. not_n (log_name_injective m n hi small d))
                (λ d. not_target (log_name_injective m target hi (omega arith) d)) in
          let window : IsWindow (suc target) logs g.data_of =
            widen (suc target) (suc n) logs f.data_of g.data_of
              (λ m lo hi. same m (omega arith) (omega arith) hi)
              (λ m lo hi top. elim (Bool-cases (m == n)) [
                | inl equal ↦ ap (λ k. g.data_of (log_name k)) ((==_iff m n).0 equal) ∙ left
                | inr differ ↦
                    same m (ground arith) (omega arith) top ∙ gap m (omega arith) (ground arith)
              ])
              (omega arith) rest in
          next g (λ q. ap (λ u. u q) in_use ∙ idle q) put window
            (λ q other. kept q (other n le small) (other target (omega arith) (omega arith))))

  drop-map_log :
      (k : ℕ) (logs : List (ℕ × A))
      → drop k (map log_at (map number_of logs)) ≡ map log_at (map number_of (drop k logs))
  drop-map_log zero logs = refl
  drop-map_log (suc k) [] = refl
  drop-map_log (suc k) ((n, c) ∷ logs) = drop-map_log k logs

  length-map_log : (logs : List (ℕ × A)) → length (map log_at (map number_of logs)) ≡ length logs
  length-map_log [] = refl
  length-map_log ((n, c) ∷ logs) = ap suc (length-map_log logs)

  length-numbers : (logs : List (ℕ × A)) → length (map number_of logs) ≡ length logs
  length-numbers [] = refl
  length-numbers ((n, c) ∷ logs) = ap suc (length-numbers logs)

  window-Ascends :
      (low : ℕ) (logs : List (ℕ × A)) (held : List ℕ → Option A)
      → IsWindow low logs held
      → Ascends low (map number_of logs)
  window-Ascends low [] held window = tt
  window-Ascends low ((n, c) ∷ logs) held (le, small, gap, there, rest) =
      (le, small, window-Ascends (suc n) logs held rest)

  -- The newest logs, as many as are kept.
  abbrev pub newest : Option ℕ → List (ℕ × A) → List (ℕ × A)
  newest keep logs = drop (surplus keep (length logs)) logs

  -- Where no log is open, and the folder's logs have numbers from 1 to 99999 and are not more than the
  -- scan takes: in whatever order `readdir` gives them, exactly the newest ones that the limit allows
  -- are kept, with what they held, under the numbers from 1 on without gaps in the same order; no file
  -- is overwritten and none but the logs changes; and their count is returned.
  pub enforce_lem :
      (names : List (List ℕ)) (keep : Option ℕ) (logs : List (ℕ × A)) (f : Folder A)
      → IsIdle f
      → IsWindow 1 logs f.data_of
      → Lists names (map number_of logs)
      → length logs ≤ max_tracked
      → let (kept, g) = enforce names keep none f in
        (kept ≡ length (newest keep logs))
        × IsWindow 1 (renumbered 1 (newest keep logs)) g.data_of
        × ((q : List ℕ) → IsOther 1 q → g.data_of q ≡ f.data_of q)
        × IsIdle g
  unfolding enforce
  enforce_lem names keep logs f idle window listed few =
      let all = map log_at (map number_of logs) in
      let first = surplus keep (length logs) in
      let collected : collect names ≡ all =
        collect_lem names (map number_of logs) listed
          (Ascends-sooner 0 1 (map number_of logs) (omega arith)
            (window-Ascends 1 logs f.data_of window))
          (omega (arith, length-numbers logs)) in
      let g = prune none (take first all) f in
      let (left, same, free) = prune_lem 1 first logs f idle window in
      let (after, others, done) = renumber_lem 1 (drop first logs) g free left in
      let P : List Log → ℕ → Type 0 = λ found k.
        let h = renumber none 1 (drop k found) (prune none (take k found) f) in
        (length found - k ≡ length (newest keep logs))
        × IsWindow 1 (renumbered 1 (newest keep logs)) h.data_of
        × ((q : List ℕ) → IsOther 1 q → h.data_of q ≡ f.data_of q)
        × IsIdle h in
      subst (λ found. P found (surplus keep (length found))) (sym collected)
        (subst (P all) (sym (ap (surplus keep) (length-map_log logs))) (
          omega (arith, length-map_log logs, length-drop first logs),
          subst
              (λ later.
                IsWindow 1 (renumbered 1 (newest keep logs)) (renumber none 1 later g).data_of)
              (sym (drop-map_log first logs)) after,
          (λ q other.
              ap (λ later. (renumber none 1 later g).data_of q) (drop-map_log first logs)
              ∙ others q other
              ∙ same q other),
          subst (λ later. IsIdle (renumber none 1 later g)) (sym (drop-map_log first logs)) done,
        ))
