-- ===== src/Tests/Rotations.antt =====
-- Log rotation: internal/observability/rotation.go.
use kg_os.Common.{◌∷◌, [], List, true, ◌≡◌, refl, arith}
use kg_os.Observability.Rotation.{
  absent, regular, Files, Disk, Call, writing, closing, run, step, write, append, append_rotated,
  rotate, shift, shifted, grown, open_log, opened_at, move, new_rotating_writer, new_opened,
}
use kg_os.Observability.Rotation.Bound.{IsWithin, run-new_rotating_writer}

abbrev good_disk : Disk
good_disk = record {
  prepares = true;
  examines = λ i. true;
  opens = true;
  settles = true;
  closes = true;
  closes_root = true;
  renames = λ i. true;
  accepts = 1000;
}

abbrev no_files : Files
no_files i = absent

abbrev calls : List Call
calls = writing good_disk 6 ∷ writing good_disk 7 ∷ writing good_disk 8 ∷ closing good_disk ∷ []

run-new_rotating_writer_example :
    IsWithin no_files (run calls (new_rotating_writer good_disk no_files 10 2).0)
run-new_rotating_writer_example =
    run-new_rotating_writer good_disk no_files 10 2 calls (λ j. tt) (omega arith)

-- With no room for an older file the log grows over its limit.
one_file_grows :
    (run
        (writing good_disk 6 ∷ writing good_disk 7 ∷ [])
        (new_rotating_writer good_disk no_files 10 1).0).files
      0
    ≡ regular 13
unfolding run step write append append_rotated rotate shift shifted grown open_log opened_at move
    new_rotating_writer new_opened
one_file_grows = refl
