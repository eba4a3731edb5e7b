-- ===== src/Kernel/Patch/Document/Entries.antt =====
-- What the parser promises of an entry, and that the last `switch` keeps the promise.
use kg_os.Common.{
  ℕ, ◌≤◌, ◌<◌, zero, suc, Bytes, ◌∷◌, [], List, ◌++◌, false, length, ◌≡◌, ◌≢◌, arith, All,
  All-append, bytes_eq_iff, Bool-cases, inl, inr,
}
use kg_os.Kernel.Patch.Text.{AreLines}
use kg_os.Kernel.Patch.Hunks.{Hunk}
use kg_os.Kernel.Patch.Parser.{
  Operation, update, add, delete, rename, Entry, Draft, starts, parse_patch_hunk, read_hunks,
  classify, no_hunks, add_entry, delete_entry, rename_entry, update_entry,
}
use kg_os.Kernel.Patch.Parser.Ends.{Ends, Ends-bind}
use kg_os.Kernel.Patch.Parser.HunkLines.{IsHunk, Leaves, parse_patch_hunk-Leaves}

-- Additions, removals and updates have hunks; an update stays where it is; the paths of a rename
-- are those of its two targets, and are not empty.
abbrev IsShaped : Operation → Entry → Type 0
IsShaped add e = e.hunks ≢ []
IsShaped delete e = e.hunks ≢ []
IsShaped update e = (e.hunks ≢ []) × (e.old_target ≡ e.new_target)
IsShaped rename e =
    (e.rename_from ≡ e.old_target)
    × (e.rename_to ≡ e.new_target)
    × (e.old_target ≢ [])
    × (e.new_target ≢ [])

pub record IsEntry (e : Entry) : Type 0 where
  pub shaped : IsShaped e.operation e
  pub hunks : All IsHunk e.hunks

add_entry-IsEntry : (d : Draft) → All IsHunk d.entry.hunks → Ends IsEntry (add_entry d)
unfolding add_entry
add_entry-IsEntry d h = ground arith

delete_entry-IsEntry : (d : Draft) → All IsHunk d.entry.hunks → Ends IsEntry (delete_entry d)
unfolding delete_entry
delete_entry-IsEntry d h = ground arith

rename_entry-IsEntry : (d : Draft) → All IsHunk d.entry.hunks → Ends IsEntry (rename_entry d)
unfolding rename_entry
rename_entry-IsEntry d h = ground (
  arith,
  bytes_eq_iff d.entry.rename_from d.entry.old_target,
  bytes_eq_iff d.entry.rename_to d.entry.new_target,
)

update_entry-IsEntry :
    (d : Draft)
    → no_hunks d.entry.hunks ≡ false
    → All IsHunk d.entry.hunks
    → Ends IsEntry (update_entry d)
unfolding update_entry
update_entry-IsEntry d n h = ground (arith, bytes_eq_iff d.entry.old_target d.entry.new_target)

pub classify-IsEntry : (d : Draft) → All IsHunk d.entry.hunks → Ends IsEntry (classify d)
unfolding classify
classify-IsEntry d h = ground (
  arith,
  add_entry-IsEntry d h,
  delete_entry-IsEntry d h,
  rename_entry-IsEntry d h,
  update_entry-IsEntry d,
)

-- Hunks that are read, and at most `n` lines that are left.
pub record HunksLeave (n : ℕ) (found : List Hunk × List Bytes) : Type 0 where
  pub hunks : All IsHunk found.0
  pub shorter : length found.1 ≤ n
  pub lines : AreLines found.1

pub read_hunks-Leave :
    (fuel : ℕ) (lines : List Bytes) (hunks : List Hunk) (n : ℕ)
    → length lines < fuel
    → length lines ≤ n
    → AreLines lines
    → All IsHunk hunks
    → Ends (HunksLeave n) (read_hunks fuel lines hunks)
unfolding read_hunks
read_hunks-Leave zero lines hunks n f h a k = absurd (omega arith)
read_hunks-Leave (suc fuel) [] hunks n f h a k = record {
  hunks = k;
  shorter = omega arith;
  lines = tt;
}
read_hunks-Leave (suc fuel) (line ∷ rest) hunks n f h (a, b) k =
    elim (Bool-cases (starts line "@@ ")) [
      | inr other ↦ rw other (record { hunks = k; shorter = h; lines = (a, b) })
      | inl more ↦ rw more (
          Ends-bind (Leaves (length rest)) (HunksLeave n) (parse_patch_hunk line rest)
            (λ found. read_hunks fuel found.1 (hunks ++ found.0 ∷ []))
            (parse_patch_hunk-Leaves line rest b)
            (λ found v.
              read_hunks-Leave fuel found.1 (hunks ++ found.0 ∷ []) n (omega (arith, v.shorter))
                (omega (arith, v.shorter)) v.lines
                (All-append IsHunk hunks (found.0 ∷ []) k (v.is_hunk, tt))))
    ]
