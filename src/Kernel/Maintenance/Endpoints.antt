-- ===== src/Kernel/Maintenance/Endpoints.antt =====
-- `applyEndpointTransitions` of internal/kernel/patch_plan.go: an end of a Relationship Definition
-- after the renames of a plan. The map of the renames is gone through in the order of the list.
use kg_os.Common.{
  Bytes, [], ◌∷◌, Bool, false, Option, none, some, if◌then◌else◌, bytes_eq, bytes_eq_iff,
  bytes_eq_comm, ok, err, ◌>>=◌, ◌≡◌, refl, ap, ◌∙◌, arith, All, >>=-eq-ok, Bool-cases, inl, inr,
}
use kg_os.Common.Table.{find}
use kg_os.Kernel.Errors.{Result, ErrorCode}
use kg_os.Kernel.Maintenance.{Renames, renamed}

unfoldable pub is_ref : Option Bytes → Bytes → Bool
is_ref none ref = false
is_ref (some r) ref = bytes_eq r ref

-- The end of the base is this old Ref; `explicit` is that the patch has edited the Definition.
unfoldable pub move_base_end : Bool → Bytes → Bytes → Option Bytes → Result (Option Bytes)
move_base_end explicit old new none = if explicit then err ErrorCode.object_conflict else ok none
move_base_end explicit old new (some r) =
    if bytes_eq r old
    then ok (some new)
    else if bytes_eq r new
    then ok (some r)
    else if explicit
    then err ErrorCode.object_conflict
    else ok (some r)

unfoldable pub move_other_end : Bytes → Bytes → Option Bytes → Option Bytes
move_other_end old new none = none
move_other_end old new (some r) = if bytes_eq r old then some new else some r

-- One round of the loop.
unfoldable pub move_end : Option Bytes → Bool → Bytes × Bytes → Option Bytes → Result (Option Bytes)
unfolding is_ref move_base_end move_other_end
move_end base explicit (old, new) current =
    if is_ref base old
    then move_base_end explicit old new current
    else ok (move_other_end old new current)

-- `applyEndpointTransitions`; its pointers are there.
unfoldable pub apply_endpoint_transitions :
    Option Bytes → Bool → Renames → Option Bytes → Result (Option Bytes)
unfolding move_end
apply_endpoint_transitions base explicit [] current = ok current
apply_endpoint_transitions base explicit (t ∷ transitions) current =
    move_end base explicit t current >>= λ next.
    apply_endpoint_transitions base explicit transitions next

abbrev pub renamed_end : Renames → Option Bytes → Option Bytes
renamed_end transitions none = none
renamed_end transitions (some r) = some (renamed transitions r)

-- No new Ref is an old Ref of these transitions.
abbrev pub NoChain : Renames → Type 0
NoChain transitions = All (λ t. find t.1 transitions ≡ none) transitions

-- No new Ref is an old Ref of a later transition.
NoLater : Renames → Type 0
NoLater [] = Unit
NoLater (t ∷ transitions) = (find t.1 transitions ≡ none) × NoLater transitions

module _ (base : Option Bytes) (explicit : Bool) where
  -- A round that succeeds moves the end where it is the old Ref, and only there.
  move_end-eq-ok :
      (old new : Bytes) (current : Option Bytes) {next : Option Bytes}
      → move_end base explicit (old, new) current ≡ ok next
      → next ≡ move_other_end old new current
  unfolding move_end move_base_end move_other_end
  move_end-eq-ok old new none done = ground arith
  move_end-eq-ok old new (some r) done = ground (arith, bytes_eq_iff r old, bytes_eq_iff r new)

  apply-later :
      (transitions : Renames) (current : Option Bytes) {result : Option Bytes}
      → NoLater transitions
      → apply_endpoint_transitions base explicit transitions current ≡ ok result
      → result ≡ renamed_end transitions current
  unfolding apply_endpoint_transitions NoLater move_other_end renamed find
  apply-later [] none h done = cc
  apply-later [] (some r) h done = cc
  apply-later ((old, new) ∷ transitions) current (h, hs) done =
      let (next, first, rest) = >>=-eq-ok (move_end base explicit (old, new) current) _ done in
      let moved = move_end-eq-ok old new current first in
      apply-later transitions next hs rest ∙ (ap (renamed_end transitions) moved ∙ here current)
    where
      here :
          (c : Option Bytes)
          → renamed_end transitions (move_other_end old new c)
            ≡ renamed_end ((old, new) ∷ transitions) c
      here none = refl
      here (some r) = elim (Bool-cases (bytes_eq r old)) [
        | inl same ↦ rw (same, h, bytes_eq_comm old r, same) refl
        | inr other ↦ rw (other, bytes_eq_comm old r, other) refl
      ]

find-later :
    (t : Bytes × Bytes) (rest : Renames) (k : Bytes) → find k (t ∷ rest) ≡ none → find k rest ≡ none
unfolding find
find-later (old, new) rest k e = ground arith

NoChain-NoLater : (transitions : Renames) → NoChain transitions → NoLater transitions
unfolding NoLater
NoChain-NoLater transitions h = within transitions transitions (λ k e. e) h
  where
    within :
        (all rest : Renames)
        → ((k : Bytes) → find k all ≡ none → find k rest ≡ none)
        → All (λ t. find t.1 all ≡ none) rest
        → NoLater rest
    within all [] sub h = tt
    within all (t ∷ rest) sub (h, hs) = (
      find-later t rest t.1 (sub t.1 h),
      within all rest (λ k e. find-later t rest k (sub k e)) hs,
    )

-- Where no new Ref is an old Ref of the transitions, and `applyEndpointTransitions` succeeds, the end is
-- what the one transition from it gives, or stays where there is none, whatever the order of the
-- transitions and the end of the base.
pub apply_endpoint_transitions-renamed :
    (base : Option Bytes) (explicit : Bool) (transitions : Renames) (current result : Option Bytes)
    → NoChain transitions
    → apply_endpoint_transitions base explicit transitions current ≡ ok result
    → result ≡ renamed_end transitions current
apply_endpoint_transitions-renamed base explicit transitions current result h =
    apply-later base explicit transitions current (NoChain-NoLater transitions h)
