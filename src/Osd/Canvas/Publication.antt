-- ===== src/Osd/Canvas/Publication.antt =====
-- What a host reads of the OSD: the frame changes where the firmware commits one, and then it shows
-- the grid as it was drawn.
use betaflight_sitl_udp.Base.{
  ℕ, zero, suc, ◌+◌, ◌*◌, ◌≤◌, ◌<◌, ◌^◌, ◌%◌, ◌≡◌, refl, sym, ◌∙◌, ap, Bool, true, ◌&&◌, ◌||◌, ◌==◌,
  List, [], ◌∷◌, none, some, ltb, leb, if◌then◌else◌, arith, u8, add32, if_both,
}
use betaflight_sitl_udp.Osd.Canvas.{
  Cell, Frame, Firmware, Canvas, max_cols, put, clear_screen, write_sys, write_char, write_from,
  write_string, copy_row, copy_rows, publish, draw_screen, init, get_osd_frame, get_osd_revision,
  Event, clears, draws_char, draws_string, draws_sys, commits, step, run,
}

copy_row_lem :
    (live : ℕ → ℕ → Cell) (y cols : ℕ) (cells : ℕ → Cell) (j i : ℕ)
    → cols ≤ max_cols
    → i < max_cols
    → copy_row live y cols cells (j * max_cols + i)
      ≡ (if j == y && ltb i cols then live j i else cells (j * max_cols + i))
unfolding copy_row
copy_row_lem live y zero cells j i fits small = ground arith
copy_row_lem live y (suc x) cells j i fits small =
    ground (arith, copy_row_lem live y x cells j i (omega arith) small)

copy_rows_lem :
    (live : ℕ → ℕ → Cell) (cols rows : ℕ) (cells : ℕ → Cell) (j i : ℕ)
    → cols ≤ max_cols
    → i < max_cols
    → copy_rows live cols rows cells (j * max_cols + i)
      ≡ (if ltb j rows && ltb i cols then live j i else cells (j * max_cols + i))
unfolding copy_rows
copy_rows_lem live cols zero cells j i fits small = ground arith
copy_rows_lem live cols (suc y) cells j i fits small = ground (
  arith,
  copy_row_lem live y cols (copy_rows live cols y cells) j i fits small,
  copy_rows_lem live cols y cells j i fits small,
)

-- No commit is among the calls.
abbrev pub Uncommitted : List Event → Type 0
Uncommitted [] = Unit
Uncommitted (commits video_system ∷ more) = ⊥
Uncommitted (clears ∷ more) = Uncommitted more
Uncommitted (draws_char x y attr character ∷ more) = Uncommitted more
Uncommitted (draws_string x y attr text ∷ more) = Uncommitted more
Uncommitted (draws_sys x y element ∷ more) = Uncommitted more

-- The part of the state that a host reads.
abbrev Host : Type 0
Host = Frame × Bool × ℕ

abbrev host : Canvas → Host
host c = (c.published, c.active, c.revision)

put-host : (c : Canvas) (x y : ℕ) (cell : Cell) → host (put c x y cell) ≡ host c
unfolding put
put-host c x y cell =
    if_both (λ (d : Canvas). host d ≡ host c) (leb c.cols x || leb c.rows y) refl refl

write_from-host :
    (k x y attr : ℕ) (text : List ℕ) (c : Canvas) → host (write_from k x y attr text c) ≡ host c
unfolding write_from
write_from-host k x y attr [] c = refl
write_from-host k x y attr (ch ∷ text) c =
    if_both (λ (d : Canvas). host d ≡ host c) (leb c.cols (u8 (x + k))) refl
      (write_from-host (k + 1) x y attr text _ ∙ put-host c (u8 (x + k)) y _)

run-host :
    (firmware : Firmware) (events : List Event) (c : Canvas)
    → Uncommitted events
    → host (run firmware c events) ≡ host c
unfolding run step clear_screen write_char write_string write_sys
run-host firmware [] c quiet = refl
run-host firmware (clears ∷ more) c quiet = run-host firmware more _ quiet
run-host firmware (draws_char x y attr character ∷ more) c quiet =
    run-host firmware more _ quiet ∙ put-host _ x y _
run-host firmware (draws_string x y attr none ∷ more) c quiet = run-host firmware more _ quiet
run-host firmware (draws_string x y attr (some text) ∷ more) c quiet =
    run-host firmware more _ quiet ∙ write_from-host 0 x y attr text _
run-host firmware (draws_sys x y element ∷ more) c quiet =
    run-host firmware more _ quiet ∙ put-host _ x y _
run-host firmware (commits video_system ∷ more) c quiet = absurd quiet

-- Where the OSD is up and the canvas fits the arrays: however much the firmware clears and draws after
-- a commit, the host reads the frame of that commit: each cell of the canvas at the index row * max_cols
-- + col, which is not the row * cols + col of the header's comment, as it stood on the grid when the
-- firmware committed it, with the next revision, and with the count of the commits before this one,
-- which is one less than the count that the header promises.
pub frame_shows_commit :
    (firmware : Firmware) (video_system : ℕ) (later : List Event) (c : Canvas) (j i : ℕ)
    → c.active ≡ true
    → c.cols ≤ max_cols
    → i < c.cols
    → j < c.rows
    → Uncommitted later
    → (frame : Frame) × (get_osd_frame (run firmware (draw_screen video_system c) later)
        ≡ some frame)
      × (frame.cells (j * max_cols + i) ≡ c.live j i)
      × (frame.revision ≡ add32 c.revision 1)
      × (frame.frames ≡ c.frame_count)
unfolding get_osd_frame draw_screen publish
frame_shows_commit firmware video_system later c j i on fits left above quiet =
    let d = draw_screen video_system c in
    let same = run-host firmware later d quiet in
    (
      d.published,
      ap (λ (h : Host). if h.1 then some h.0 else none) same
          ∙ ap (λ b. if b then some d.published else none) on,
      ground (arith, copy_rows_lem c.live c.cols c.rows c.published.cells j i),
      refl,
      refl,
    )

abbrev pub commits_of : List Event → ℕ
commits_of [] = 0
commits_of (commits video_system ∷ more) = 1 + commits_of more
commits_of (clears ∷ more) = commits_of more
commits_of (draws_char x y attr character ∷ more) = commits_of more
commits_of (draws_string x y attr text ∷ more) = commits_of more
commits_of (draws_sys x y element ∷ more) = commits_of more

-- The OSD is up, and the frame carries the current revision: so it is from the initialisation on.
abbrev pub IsSynced : Canvas → Type 0
IsSynced c = (c.active ≡ true) × (c.published.revision ≡ c.revision) × (c.revision < 2 ^ 32)

RevisionAfter : Canvas → ℕ → ℕ → Type 0
RevisionAfter c n revision = revision ≡ (c.revision + n) % 2 ^ 32

quiet_step :
    (c d : Canvas) (n revision : ℕ)
    → host d ≡ host c
    → IsSynced c
    → (IsSynced d → RevisionAfter d n revision)
    → RevisionAfter c n revision
unfolding RevisionAfter
quiet_step c d n revision same (on, current, small) after =
    let counter = ap (λ (h : Host). h.2) same in
    after (
      ap (λ (h : Host). h.1) same ∙ on,
      ap (λ (h : Host). h.0.revision) same ∙ current ∙ sym counter,
      omega arith,
    )
    ∙ ap (λ m. (m + n) % 2 ^ 32) counter

-- Where the OSD is up and the frame carries the current revision, a `uint32_t`, any history of calls
-- leaves it so that the revision that a host polls has gone up by the number of the commits, modulo 2^32: it stands
-- still while the firmware only draws, and no commit is missed.
pub run-revision :
    (firmware : Firmware) (events : List Event) (c : Canvas)
    → IsSynced c
    → get_osd_revision (run firmware c events) ≡ (c.revision + commits_of events) % 2 ^ 32
unfolding run RevisionAfter get_osd_revision draw_screen publish step
run-revision firmware [] c (on, current, small) =
    ap (λ b. if b then c.published.revision else 0) on ∙ current ∙ omega arith
run-revision firmware (commits video_system ∷ more) c (on, current, small) =
    run-revision firmware more (draw_screen video_system c) (on, refl, omega arith) ∙ omega arith
run-revision firmware (clears ∷ more) c synced =
    quiet_step c (step firmware c clears) (commits_of more) _ (run-host firmware (clears ∷ []) c tt)
      synced (run-revision firmware more (step firmware c clears))
run-revision firmware (draws_char x y attr character ∷ more) c synced =
    quiet_step c (step firmware c (draws_char x y attr character)) (commits_of more) _
      (run-host firmware ((draws_char x y attr character) ∷ []) c tt) synced
      (run-revision firmware more (step firmware c (draws_char x y attr character)))
run-revision firmware (draws_string x y attr text ∷ more) c synced =
    quiet_step c (step firmware c (draws_string x y attr text)) (commits_of more) _
      (run-host firmware ((draws_string x y attr text) ∷ []) c tt) synced
      (run-revision firmware more (step firmware c (draws_string x y attr text)))
run-revision firmware (draws_sys x y element ∷ more) c synced =
    quiet_step c (step firmware c (draws_sys x y element)) (commits_of more) _
      (run-host firmware ((draws_sys x y element) ∷ []) c tt) synced
      (run-revision firmware more (step firmware c (draws_sys x y element)))

-- The initialisation leaves the OSD in step with the host, with a blank frame.
pub init-IsSynced :
    (firmware : Firmware) (cols rows video_system : ℕ) (c : Canvas)
    → IsSynced (init firmware cols rows video_system c)
unfolding init
init-IsSynced firmware cols rows video_system c = (refl, refl, omega arith)
