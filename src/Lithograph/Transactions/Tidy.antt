-- ===== src/Lithograph/Transactions/Tidy.antt =====
-- The life of a transaction and of its connection.
use kg_os.Common.{
  each, ℕ, ◌+◌, ◌∷◌, [], List, Bool, true, false, not, Option, none, some, length, ◌≡◌, refl, sym,
  ap, arith, Bool-cases, inl, inr, subst, All,
}
use kg_os.Lithograph.Transactions.{
  Connection, Fault, Checkout, World, Opening, State, Called, discard, after, only_main,
  checkout_reusable_main, released, release, forget, finished, fail_connection, fail_closed,
  on_statement, on_last, admitted, execute, stream, commit, abort_transaction, close_connection,
  close, close_host, registered_transaction, begin_baseline, begin_acquired, no_transaction, begin,
  Call, executing, streaming, committing, aborting, closing, closing_host, step, run,
}

-- `closed`, the connection and the registration go together.
abbrev pub Lifecycle : Bool → Option Connection → Bool → Type 0
Lifecycle true none false = Unit
Lifecycle false (some c) true = Unit
Lifecycle closed connection registered = ⊥

abbrev pub held : Option Connection → ℕ
held none = 0
held (some c) = 1

-- Every connection that was given back is out of any transaction, and the one connection is held,
-- given back or discarded, and only one of these, once.
pub record IsTidy (s : State) : Type 0 where
  pub lifecycle : Lifecycle s.closed s.connection s.registered
  pub clean : All (λ c. c.auto_commit ≡ true) s.given_back
  pub once : held s.connection + length s.given_back + length s.discarded ≡ 1

-- Only a connection in auto-commit is fit for the pool.
checkout-clean :
    (a : Checkout) (c : Connection)
    → (checkout_reusable_main a c).1 ≡ true
    → (checkout_reusable_main a c).0.auto_commit ≡ true
unfolding checkout_reusable_main
checkout-clean a c h = elim (Bool-cases c.auto_commit) [
  | inl outside ↦ elim (Bool-cases (only_main a.names)) [
    | inl main ↦ rw (outside, main) (rw (outside, main) at h)
    | inr other ↦ cc (rw (outside, other) at h)
  ]
  | inr inside ↦ cc (rw inside at h)
]

-- What is left to do with one connection `c`.
record CanRelease (s : State) : Type 0 where
  ready : All (λ c. c.auto_commit ≡ true) s.given_back
  none_yet : length s.given_back + length s.discarded ≡ 0

released-IsTidy :
    (w : World) (m : Connection × Bool) (s : State)
    → (m.1 ≡ true → m.0.auto_commit ≡ true)
    → CanRelease s
    → IsTidy (forget (released w m s).0)
unfolding released
released-IsTidy w (c, false) s h r = record {
  lifecycle = tt;
  clean = r.ready;
  once = omega (arith, r.none_yet);
}
released-IsTidy w (c, true) s h r = record {
  lifecycle = tt;
  clean = (h refl, r.ready);
  once = omega (arith, r.none_yet);
}

release-IsTidy :
    (w : World) (c : Connection) (s : State) → CanRelease s → IsTidy (finished (release w c s)).0
unfolding release
release-IsTidy w c s r =
    released-IsTidy w (checkout_reusable_main w.checkout c) s (checkout-clean w.checkout c) r

discard-IsTidy : (c : Connection) (s : State) → CanRelease s → IsTidy (forget (discard c s))
discard-IsTidy c s r = record { lifecycle = tt; clean = r.ready; once = omega (arith, r.none_yet) }

abbrev pub TidyCall : Called → Type 0
TidyCall m = IsTidy m.0

other_connection :
    (closed registered : Bool) (c d : Connection)
    → Lifecycle closed (some c) registered
    → Lifecycle closed (some d) registered
other_connection true true c d h = h
other_connection true false c d h = h
other_connection false true c d h = h
other_connection false false c d h = h

-- The connection that a transaction holds is all there is.
can_release : (c : Connection) (s : State) → some c ≡ s.connection → IsTidy s → CanRelease s
can_release c s e h = record { ready = h.clean; none_yet = omega (arith, h.once, ap held e) }

abbrev moved_to : Connection → State → State
moved_to c s = record s { connection = some c }

moved-IsTidy :
    (c d : Connection) (s : State) → some c ≡ s.connection → IsTidy s → IsTidy (moved_to d s)
moved-IsTidy c d s e h = record {
  lifecycle =
      other_connection s.closed s.registered c d
        (subst (λ o. Lifecycle s.closed o s.registered) (sym e) h.lifecycle);
  clean = h.clean;
  once = omega (arith, h.once, ap held e);
}

fail_connection-IsTidy :
    (w : World) (c : Connection) (s : State)
    → CanRelease s
    → TidyCall (fail_connection w (some c) s)
unfolding fail_connection
fail_connection-IsTidy w c s r = each TidyCall c.auto_commit (release-IsTidy w c s r) (
    each TidyCall w.abort.succeeds (release-IsTidy w (after w.abort c) s r)
      (discard-IsTidy (after w.abort c) s r))

on_statement-IsTidy :
    (w : World) (found : Option Connection) (s : State)
    → found ≡ s.connection
    → IsTidy s
    → TidyCall (on_statement w found s)
unfolding on_statement fail_closed
on_statement-IsTidy w none s e h = h
on_statement-IsTidy w (some c) s e h =
    let d : Connection = after w.statement c in
    let tidy = moved-IsTidy c d s e h in
    each TidyCall w.statement.succeeds tidy
      (fail_connection-IsTidy w d (moved_to d s) (can_release d (moved_to d s) refl tidy))

on_last-IsTidy :
    (w : World) (f : Fault) (found : Option Connection) (s : State)
    → found ≡ s.connection
    → IsTidy s
    → TidyCall (on_last w f found s)
unfolding on_last fail_closed
on_last-IsTidy w f none s e h = h
on_last-IsTidy w f (some c) s e h =
    let d : Connection = after w.statement c in
    let r = can_release d (moved_to d s) refl (moved-IsTidy c d s e h) in
    each TidyCall w.statement.succeeds (release-IsTidy w d (moved_to d s) r)
      (fail_connection-IsTidy w d (moved_to d s) r)

admitted-IsTidy :
    (s : State) (next : Called) → IsTidy s → TidyCall next → TidyCall (admitted s next)
admitted-IsTidy s next h k = each TidyCall s.host_closed h (each TidyCall s.closed h k)

close_some-IsTidy :
    (w : World) (c : Connection) (s : State)
    → CanRelease s
    → TidyCall (close_connection w (some c) s)
unfolding close_connection
close_some-IsTidy w c s r =
    each TidyCall w.abort.succeeds (release-IsTidy w (after w.abort c) s r)
      (discard-IsTidy (after w.abort c) s r)

close_connection-IsTidy :
    (w : World) (found : Option Connection) (s : State)
    → found ≡ s.connection
    → IsTidy s
    → TidyCall (close_connection w found s)
unfolding close_connection
close_connection-IsTidy w none s e h = record {
  lifecycle = tt;
  clean = h.clean;
  once = omega (arith, h.once, ap held e);
}
close_connection-IsTidy w (some c) s e h = close_some-IsTidy w c s (can_release c s e h)

close-IsTidy : (w : World) (s : State) → IsTidy s → TidyCall (close w s)
unfolding close
close-IsTidy w s h = each TidyCall s.closed h (close_connection-IsTidy w s.connection s refl h)

close_host-IsTidy : (w : World) (s : State) → IsTidy s → TidyCall (close_host w s)
unfolding close_host
close_host-IsTidy w s h = each TidyCall s.host_closed h (
    each TidyCall s.registered (close-IsTidy w (record s { host_closed = true }) shut-IsTidy)
      shut-IsTidy)
  where
    shut-IsTidy : IsTidy (record s { host_closed = true })
    shut-IsTidy = record { lifecycle = h.lifecycle; clean = h.clean; once = h.once }

pub step-IsTidy : (c : Call) (s : State) → IsTidy s → TidyCall (step c s)
unfolding step execute stream commit abort_transaction
step-IsTidy (executing w) s h = admitted-IsTidy s _ h (on_statement-IsTidy w s.connection s refl h)
step-IsTidy (streaming w) s h = admitted-IsTidy s _ h (on_statement-IsTidy w s.connection s refl h)
step-IsTidy (committing w) s h = admitted-IsTidy s _ h (on_last-IsTidy w _ s.connection s refl h)
step-IsTidy (aborting w) s h = admitted-IsTidy s _ h (on_last-IsTidy w _ s.connection s refl h)
step-IsTidy (closing w) s h = close-IsTidy w s h
step-IsTidy (closing_host w) s h = close_host-IsTidy w s h

pub run-IsTidy : (calls : List Call) (s : State) → IsTidy s → IsTidy (run calls s)
unfolding run
run-IsTidy [] s h = h
run-IsTidy (c ∷ calls) s h = run-IsTidy calls (step c s).0 (step-IsTidy c s h)

-- What a `Begin` without an error leaves.
abbrev Starts : Called → Type 0
Starts m = m.1 ≡ [] → IsTidy m.0

registered-Starts :
    (o : Opening) (c : Connection) (s : State)
    → CanRelease s
    → Starts (registered_transaction o (record s { connection = some c; closed = false }))
unfolding registered_transaction
registered-Starts o c s r =
    each Starts o.host_closes (λ e. cc)
      λ e. record { lifecycle = tt; clean = r.ready; once = omega (arith, r.none_yet) }

begin_baseline-Starts :
    (o : Opening) (m : Connection × Bool) (s : State) → CanRelease s → Starts (begin_baseline o m s)
unfolding begin_baseline
begin_baseline-Starts o (c, false) s r = λ e. cc
begin_baseline-Starts o (c, true) s r =
    each Starts (not o.options_encode) (λ e. cc)
      (each Starts (not o.world.statement.succeeds) (λ e. cc)
        (registered-Starts o (after o.world.statement c) s r))

begin-Starts : (o : Opening) (host_closed : Bool) → Starts (begin o host_closed)
unfolding begin begin_acquired
begin-Starts o host_closed = each Starts host_closed (λ e. cc) (acquired o.acquired)
  where
    acquired :
        (found : Option Connection) → Starts (begin_acquired o found (no_transaction host_closed))
    acquired none = λ e. cc
    acquired (some c) =
        begin_baseline-Starts o (checkout_reusable_main o.baseline c) (no_transaction host_closed)
          (record { ready = tt; none_yet = refl })

-- After a `Begin` without an error, and then any calls in any order, the host's closing among them,
-- with any answers of the database: the transaction is open, registered and holds its connection,
-- or it is closed, neither registered nor holding one; its one connection is held, given back to
-- the pool or discarded, and only one of these, once; and if it was given back, it was in no
-- transaction.
pub run-begin-IsTidy :
    (o : Opening) (host_closed : Bool) (calls : List Call)
    → (begin o host_closed).1 ≡ []
    → IsTidy (run calls (begin o host_closed).0)
run-begin-IsTidy o host_closed calls e = run-IsTidy calls _ (begin-Starts o host_closed e)
