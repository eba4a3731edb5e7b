-- ===== src/Observability/Rotation/Bound.antt =====
-- The bound on what the log files take.
use kg_os.Common.{
  each, each_by, ℕ, ◌+◌, ◌-◌, ◌≤◌, ◌<◌, [], ◌∷◌, List, Bool, true, false, not, ◌||◌, none, some, ok,
  err, ltb, leb, ◌≡◌, refl, sym, ◌∙◌, subst, ap, arith,
}
use kg_os.Observability.Rotation.{
  Entry, absent, irregular, regular, Files, Writer, Called, Disk, with_entry, opened_at, open_log,
  Moved, shift, shifted, rotate, grown, grow, append, append_rotated, write, new_opened,
  new_rotating_writer, close, Call, writing, closing, step, run,
}
use kg_os.Observability.Rotation.Shifting.{
  Fits, AllFit, Shifts, Empties, with_entry-AllFit, with_entry_other, shift-Shifts, older-Empties,
}

-- Every file is within the limit, and the open one is as long as the writer believes; names from
-- `count` on hold what they held at first.
pub record IsWithin (first : Files) (w : Writer) : Type 0 where
  pub all_fit : AllFit w.limit w.files
  pub is_counted : w.is_open ≡ true → w.files 0 ≡ regular w.bytes
  pub is_kept : (j : ℕ) → w.count ≤ j → w.files j ≡ first j
  pub has_older : 2 ≤ w.count

abbrev Within : {A : Type 0} → Files → Called A → Type 0
Within first m = IsWithin first m.0

set_zero-IsKept :
    (first : Files) (e : Entry) (w : Writer)
    → IsWithin first w
    → (j : ℕ) → w.count ≤ j
    → with_entry 0 e w.files j ≡ first j
set_zero-IsKept first e w h j l =
    with_entry_other 0 j e w.files (omega (arith, h.has_older)) ∙ h.is_kept j l

opened_at-IsWithin :
    (first : Files) (d : Disk) (e : Entry) (w : Writer)
    → w.files 0 ≡ e
    → w.is_open ≡ false
    → IsWithin first w
    → Within first (opened_at d e w)
unfolding opened_at
opened_at-IsWithin first d irregular w same o h = h
opened_at-IsWithin first d absent w same o h = each (Within first) (not d.opens) h (
    each (Within first) (not d.settles) (created w.is_open w.bytes λ e. cc)
      (created true 0 λ e. refl))
  where
    created :
        (is_open : Bool) (bytes : ℕ)
        → (is_open ≡ true → regular 0 ≡ regular bytes)
        → IsWithin first (record w {
          files = with_entry 0 (regular 0) w.files;
          is_open = is_open;
          bytes = bytes;
        })
    created is_open bytes counted = record {
      all_fit = with_entry-AllFit w.limit 0 (regular 0) w.files (omega arith) h.all_fit;
      is_counted = counted;
      is_kept = set_zero-IsKept first (regular 0) w h;
      has_older = h.has_older;
    }
opened_at-IsWithin first d (regular size) w same o h =
    each (Within first) (not d.opens || not d.settles) h (record {
      all_fit = h.all_fit;
      is_counted = λ _. same;
      is_kept = h.is_kept;
      has_older = h.has_older;
    })

open_log-IsWithin :
    (first : Files) (d : Disk) (w : Writer)
    → w.is_open ≡ false
    → IsWithin first w
    → Within first (open_log d w)
unfolding open_log
open_log-IsWithin first d w o h =
    each (Within first) (not (d.examines 0)) h (opened_at-IsWithin first d (w.files 0) w refl o h)

moved-IsWithin :
    (first : Files) (w : Writer) (m : Moved)
    → IsWithin first w
    → Shifts w.limit (w.count - 1) w.files m
    → IsWithin first (record w { is_open = false; files = m.0 })
moved-IsWithin first w m h s = record {
  all_fit = s.all_fit;
  is_counted = λ e. cc;
  is_kept = λ j l. s.above j (omega (arith, h.has_older)) ∙ h.is_kept j l;
  has_older = h.has_older;
}

rotate-IsWithin :
    (first : Files) (d : Disk) (w : Writer) → IsWithin first w → Within first (rotate d w)
unfolding rotate
rotate-IsWithin first d w h =
    each (Within first) (not d.closes) h
      (at (shift d (w.count - 1) w.files) (shift-Shifts d w.limit (w.count - 1) w.files h.all_fit))
  where
    at :
        (m : Moved)
        → Shifts w.limit (w.count - 1) w.files m
        → Within first (shifted d (record w { is_open = false }) m)
    at (files, some fault) s = moved-IsWithin first w (files, some fault) h s
    at (files, none) s =
        open_log-IsWithin first d (record w { is_open = false; files = files }) refl
          (moved-IsWithin first w (files, none) h s)

-- A rotation that succeeds leaves an empty kgosd.log open.
Fresh : ℕ → Called (Unit {0}) → Type 0
Fresh limit m = m.1 ≡ ok tt → (m.0.bytes ≡ 0) × (m.0.is_open ≡ true) × (m.0.limit ≡ limit)

rotate-Fresh : (d : Disk) (w : Writer) → 2 ≤ w.count → Fresh w.limit (rotate d w)
unfolding rotate Fresh Empties shifted open_log opened_at
rotate-Fresh d w older =
    each (Fresh w.limit) (not d.closes) (λ e. cc)
      (at (shift d (w.count - 1) w.files) (older-Empties d w.count w.files older))
  where
    started :
        (files : Files)
        → (e : Entry) → e ≡ absent
        → Fresh w.limit (opened_at d e (record w { is_open = false; files = files }))
    started files absent same =
        each (Fresh w.limit) (not d.opens) (λ e. cc)
          (each (Fresh w.limit) (not d.settles) (λ e. cc) (λ _. (refl, refl, refl)))
    started files irregular same = cc
    started files (regular size) same = cc

    at : (m : Moved) → Empties m → Fresh w.limit (shifted d (record w { is_open = false }) m)
    at (files, some fault) s = λ e. cc
    at (files, none) s =
        each (Fresh w.limit) (not (d.examines 0)) (λ e. cc) (started files (files 0) (s refl))

grow-IsWithin :
    (first : Files) (n : ℕ) (w : Writer)
    → IsWithin first w
    → w.is_open ≡ true
    → w.bytes + n ≤ w.limit
    → IsWithin first (grow n w)
unfolding grown
grow-IsWithin first n w h o l = record {
  all_fit =
      with_entry-AllFit w.limit 0 (grown n (w.files 0)) w.files
        (subst (λ e. Fits w.limit (grown n e)) (sym (h.is_counted o)) l) h.all_fit;
  is_counted = λ _. ap (grown n) (h.is_counted o);
  is_kept = set_zero-IsKept first (grown n (w.files 0)) w h;
  has_older = h.has_older;
}

append-IsWithin :
    (first : Files) (d : Disk) (n : ℕ) (w : Writer)
    → IsWithin first w
    → w.is_open ≡ true
    → w.bytes + n ≤ w.limit
    → Within first (append d n w)
unfolding append
append-IsWithin first d n w h o l =
    each_by (Within first) (leb n d.accepts) (λ _. grow-IsWithin first n w h o l)
      λ short.
        let less : d.accepts < n = ground arith in grow-IsWithin first d.accepts w h o (omega arith)

append_rotated-IsWithin :
    (first : Files) (d : Disk) (n limit : ℕ) (m : Called (Unit {0}))
    → n ≤ limit
    → Fresh limit m
    → Within first m
    → Within first (append_rotated d n m)
unfolding append_rotated Fresh
append_rotated-IsWithin first d n limit (w, err fault) l f h = h
append_rotated-IsWithin first d n limit (w, ok a) l f h =
    let (is_empty, is_open, same_limit) = f refl in
    append-IsWithin first d n w h is_open (omega (arith, is_empty, same_limit))

write-IsWithin :
    (first : Files) (d : Disk) (n : ℕ) (w : Writer) → IsWithin first w → Within first (write d n w)
unfolding write
write-IsWithin first d n w h =
    each_by (Within first) (not w.is_open) (λ _. h)
      λ o.
        each_by (Within first) (ltb w.limit n) (λ _. h)
          λ fits.
            let small : n ≤ w.limit = ground arith in
            each_by (Within first) (ltb w.limit (w.bytes + n))
              (λ _.
                append_rotated-IsWithin first d n w.limit (rotate d w) small
                  (rotate-Fresh d w h.has_older) (rotate-IsWithin first d w h))
              (λ room. append-IsWithin first d n w h (is_open w.is_open o) (ground arith))
  where
    is_open : (b : Bool) → not b ≡ false → b ≡ true
    is_open true e = refl
    is_open false e = cc

close-IsWithin :
    (first : Files) (d : Disk) (w : Writer) → IsWithin first w → Within first (close d w)
unfolding close
close-IsWithin first d w h = each (Within first) (not w.has_root) h (record {
  all_fit = h.all_fit;
  is_counted = λ e. cc;
  is_kept = h.is_kept;
  has_older = h.has_older;
})

run-IsWithin :
    (first : Files) (calls : List Call) (w : Writer)
    → IsWithin first w
    → IsWithin first (run calls w)
unfolding run step
run-IsWithin first [] w h = h
run-IsWithin first (writing d n ∷ calls) w h =
    run-IsWithin first calls _ (write-IsWithin first d n w h)
run-IsWithin first (closing d ∷ calls) w h = run-IsWithin first calls _ (close-IsWithin first d w h)

new_rotating_writer-IsWithin :
    (d : Disk) (files : Files) (limit count : ℕ)
    → AllFit limit files
    → 2 ≤ count
    → Within files (new_rotating_writer d files limit count)
unfolding new_rotating_writer new_opened
new_rotating_writer-IsWithin d files limit count h older =
    each (Within files) (ltb limit 1 || ltb count 1) (start false) (
      each (Within files) (not d.prepares) (start false)
        (at (open_log d (writer true)) (open_log-IsWithin files d (writer true) refl (start true))))
  where
    writer : Bool → Writer
    writer has_root = record {
      files = files;
      has_root = has_root;
      is_open = false;
      bytes = 0;
      limit = limit;
      count = count;
    }

    start : (has_root : Bool) → IsWithin files (writer has_root)
    start has_root = record {
      all_fit = h;
      is_counted = λ e. cc;
      is_kept = λ j l. refl;
      has_older = older;
    }

    at : (m : Called (Unit {0})) → Within files m → Within files (new_opened m)
    at (w, ok a) k = k
    at (w, err fault) k = record {
      all_fit = k.all_fit;
      is_counted = k.is_counted;
      is_kept = k.is_kept;
      has_older = k.has_older;
    }

-- With room for at least one older file, and no file over the limit at first: whatever is written,
-- and whatever goes wrong on the disk, no file of the log is ever over the limit, the writer knows
-- the size of the file it has open, and names from kgosd.log.`count` on are left as they were.
pub run-new_rotating_writer :
    (d : Disk) (files : Files) (limit count : ℕ) (calls : List Call)
    → AllFit limit files
    → 2 ≤ count
    → IsWithin files (run calls (new_rotating_writer d files limit count).0)
run-new_rotating_writer d files limit count calls h older =
    run-IsWithin files calls _ (new_rotating_writer-IsWithin d files limit count h older)
