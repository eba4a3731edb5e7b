-- ===== src/Observability/Rotation.antt =====
-- internal/observability/rotation.go: the writer of kgosd.log, and the files of its directory.
-- The file 0 is kgosd.log and the file `i` is kgosd.log.i; a file is the number of its bytes.
pub mod Shifting
pub mod Bound
use kg_os.Common.{
  List, [], ◌∷◌, ◌&&◌, ℕ, zero, suc, ◌+◌, ◌-◌, Bool, true, false, not, ◌||◌, Option, none, some,
  Outcome, ok, err, if◌then◌else◌, ltb, leb, ◌==◌,
}

pub data Fault : Type 0 where
  invalid_limits no_directory not_examined not_regular not_opened not_closed not_renamed closed_pipe
        not_written :
      Fault

-- What `Lstat` finds at a name: nothing, a regular file of some size, or something else.
pub data Entry : Type 0 where
  absent irregular : Entry
  regular : ℕ → Entry

-- The directory.
abbrev pub Files : Type 0
Files = ℕ → Entry

-- `RotatingWriter` with its directory. `is_open` is whether `file` is not nil, `has_root` whether
-- `root` is not.
pub record Writer : Type 0 where
  pub files : Files
  pub has_root : Bool
  pub is_open : Bool
  pub bytes : ℕ
  pub limit : ℕ
  pub count : ℕ

abbrev pub Called {ℓ} : Type ℓ → Type ℓ
Called A = Writer × Outcome Fault A

-- How the operations on files go in one call: `renames i` is that to kgosd.log.i. `accepts` is how
-- many bytes the file takes at most; with fewer than all, Go gives an error.
pub record Disk : Type 0 where
  pub prepares : Bool
  pub examines : ℕ → Bool
  pub opens : Bool
  pub settles : Bool
  pub closes : Bool
  pub closes_root : Bool
  pub renames : ℕ → Bool
  pub accepts : ℕ

-- One name's entry is replaced.
abbrev pub with_entry : ℕ → Entry → Files → Files
with_entry i e files j = if j == i then e else files j

unfoldable pub opened_at : Disk → Entry → Writer → Called (Unit {0})
opened_at d irregular w = (w, err not_regular)
opened_at d absent w =
    if not d.opens
    then (w, err not_opened)
    else if not d.settles
    then (record w { files = with_entry 0 (regular 0) w.files }, err not_regular)
    else (record w { files = with_entry 0 (regular 0) w.files; is_open = true; bytes = 0 }, ok tt)
opened_at d (regular size) w =
    if not d.opens || not d.settles
    then (w, err not_opened)
    else (record w { is_open = true; bytes = size }, ok tt)

-- `open`: `settles` is whether `Stat` and `Chmod` succeed behind `OpenFile`.
unfoldable pub open_log : Disk → Writer → Called (Unit {0})
unfolding opened_at
open_log d w = if not (d.examines 0) then (w, err not_examined) else opened_at d (w.files 0) w

-- `Rename`.
abbrev pub renamed : ℕ → ℕ → Files → Files
renamed from to files = with_entry from absent (with_entry to (files from) files)

abbrev pub Moved : Type 0
Moved = Files × Option Fault

-- One round of the loop of `rotate`, that moves file `i` to `i + 1`, and the rounds behind it.
unfoldable pub move : Disk → ℕ → Entry → Files → (Files → Moved) → Moved
move d i absent files next = next files
move d i entry files next =
    if not (d.renames (suc i)) then (files, some not_renamed) else next (renamed i (suc i) files)

-- The loop: `shift d n` has the index `n` and counts down to 1.
unfoldable pub shift : Disk → ℕ → Files → Moved
unfolding move
shift d zero files = (files, none)
shift d (suc i) files =
    let next = shift d i in
    if not (d.examines i) then (files, some not_examined) else move d i (files i) files next

unfoldable pub shifted : Disk → Writer → Moved → Called (Unit {0})
shifted d w (files, some fault) = (record w { files = files }, err fault)
shifted d w (files, none) = open_log d (record w { files = files })

unfoldable pub rotate : Disk → Writer → Called (Unit {0})
unfolding shifted
rotate d w =
    if not d.closes
    then (w, err not_closed)
    else shifted d (record w { is_open = false }) (shift d (w.count - 1) w.files)

unfoldable pub grown : ℕ → Entry → Entry
grown n (regular size) = regular (size + n)
grown n entry = entry

abbrev pub grow : ℕ → Writer → Writer
grow n w = record w { files = with_entry 0 (grown n (w.files 0)) w.files; bytes = w.bytes + n }

-- The last two lines of `Write`.
unfoldable pub append : Disk → ℕ → Writer → Called ℕ
unfolding grown
append d n w = if leb n d.accepts then (grow n w, ok n) else (grow d.accepts w, err not_written)

unfoldable pub append_rotated : Disk → ℕ → Called (Unit {0}) → Called ℕ
append_rotated d n (w, err fault) = (w, err fault)
append_rotated d n (w, ok a) = append d n w

-- `Write` of `n` bytes.
unfoldable pub write : Disk → ℕ → Writer → Called ℕ
unfolding append_rotated
write d n w =
    if not w.is_open
    then (w, err closed_pipe)
    else if ltb w.limit n
    then (w, ok n)
    else if ltb w.limit (w.bytes + n)
    then append_rotated d n (rotate d w)
    else append d n w

unfoldable pub new_opened : Called (Unit {0}) → Called (Unit {0})
new_opened (w, err fault) = (record w { has_root = false }, err fault)
new_opened (w, ok a) = (w, ok tt)

-- `NewRotatingWriter` in a directory that holds some files.
unfoldable pub new_rotating_writer : Disk → Files → ℕ → ℕ → Called (Unit {0})
unfolding new_opened
new_rotating_writer d files limit count =
    let w : Writer = record {
      files = files;
      has_root = true;
      is_open = false;
      bytes = 0;
      limit = limit;
      count = count;
    } in
    if ltb limit 1 || ltb count 1
    then (record w { has_root = false }, err invalid_limits)
    else if not d.prepares
    then (record w { has_root = false }, err no_directory)
    else new_opened (open_log d w)

-- `Close`.
unfoldable pub close : Disk → Writer → Called (Unit {0})
close d w = if not w.has_root then (w, ok tt) else (
  record w { is_open = false; has_root = false },
  if w.is_open && not d.closes
      then err not_closed
      else if d.closes_root
      then ok tt
      else err not_closed,
)

-- What the program does with the writer.
pub data Call : Type 0 where
  writing : Disk → ℕ → Call
  closing : Disk → Call

unfoldable pub step : Call → Writer → Writer
step (writing d n) w = (write d n w).0
step (closing d) w = (close d w).0

unfoldable pub run : List Call → Writer → Writer
run [] w = w
run (c ∷ calls) w = run calls (step c w)
