-- ===== src/Lithograph/Transactions/Ends.antt =====
-- How a transaction ends, and that no call meets a nil connection.
use kg_os.Common.{
  each, ◌∷◌, [], Bool, true, false, Option, none, some, if◌then◌else◌, ◌≡◌, ◌≢◌, refl, subst, All,
}
use kg_os.Lithograph.Transactions.{
  Connection, Fault, World, State, Called, checkout_reusable_main, released, release,
  fail_connection, fail_closed, on_statement, on_last, admitted, execute, stream, commit,
  abort_transaction, close_connection, close, close_host, Call, executing, streaming, committing,
  aborting, closing, closing_host, step, nil_connection, transaction_is_closed, commit_failed,
  abort_failed,
}
use kg_os.Lithograph.Transactions.Tidy.{IsTidy, Lifecycle}

abbrev ClosedAs : Called → Bool → Type 0
ClosedAs m b = m.0.closed ≡ b

abbrev ClosedIfFailed : Called → Bool → Type 0
ClosedIfFailed m b = m.1 ≢ [] → ClosedAs m b

abbrev Ended : Called → Type 0
Ended m = ClosedAs m true

abbrev EndedIfFailed : Called → Type 0
EndedIfFailed m = ClosedIfFailed m true

open-Lifecycle :
    (s : State) → IsTidy s → s.closed ≡ false → Lifecycle false s.connection s.registered
open-Lifecycle s h e = subst (λ b. Lifecycle b s.connection s.registered) e h.lifecycle

-- No nil among the connections that a call uses.
unfoldable pub IsSafe : Fault → Type 0
IsSafe nil_connection = ⊥
IsSafe f = Unit

abbrev Safe : Called → Type 0
Safe m = All IsSafe m.1

release-Safe : (w : World) (m : Connection × Bool) (s : State) → Safe (released w m s)
unfolding released IsSafe
release-Safe w (c, false) s = (tt, tt)
release-Safe w (c, true) s = each (All IsSafe) w.gives_back tt (tt, tt)

fail_closed-Safe : (w : World) (s : State) → Safe (fail_closed w s)
unfolding fail_closed release IsSafe
fail_closed-Safe w s = at s.connection
  where
    at : (found : Option Connection) → Safe (fail_connection w found s)
    at none = tt
    at (some c) = each Safe c.auto_commit (release-Safe w (checkout_reusable_main w.checkout c) s) (
        each Safe w.abort.succeeds (release-Safe w (checkout_reusable_main w.checkout _) s)
          (tt, tt))

on_statement-Safe :
    (w : World) (found : Option Connection) (s : State)
    → Lifecycle false found s.registered
    → Safe (on_statement w found s)
unfolding on_statement IsSafe
on_statement-Safe w none s l = absurd l
on_statement-Safe w (some c) s l = each Safe w.statement.succeeds tt (tt, fail_closed-Safe w _)

on_last-Safe :
    (w : World) (f : Fault) (found : Option Connection) (s : State)
    → IsSafe f
    → Lifecycle false found s.registered
    → Safe (on_last w f found s)
unfolding on_last release
on_last-Safe w f none s g l = absurd l
on_last-Safe w f (some c) s g l =
    each Safe w.statement.succeeds (release-Safe w (checkout_reusable_main w.checkout _) _)
      (g, fail_closed-Safe w _)

admitted-Safe :
    (s : State) (next : Called) → (s.closed ≡ false → Safe next) → Safe (admitted s next)
unfolding IsSafe
admitted-Safe s next f = each Safe s.host_closed (tt, tt) (at s.closed refl)
  where
    at :
        (closed : Bool)
        → s.closed ≡ closed
        → Safe (if closed then (s, transaction_is_closed ∷ []) else next)
    at true e = (tt, tt)
    at false e = f e

close-Safe : (w : World) (s : State) → Safe (close w s)
unfolding close release IsSafe
close-Safe w s = each Safe s.closed tt (found s.connection)
  where
    found : (c : Option Connection) → Safe (close_connection w c s)
    found none = tt
    found (some c) =
        each Safe w.abort.succeeds (release-Safe w (checkout_reusable_main w.checkout _) s) (tt, tt)

-- On a tidy transaction no call uses a nil connection, whatever happened before.
pub step-IsSafe : (c : Call) (s : State) → IsTidy s → All IsSafe (step c s).1
unfolding step execute stream commit abort_transaction close_host IsSafe
step-IsSafe (executing w) s h =
    admitted-Safe s _ (λ e. on_statement-Safe w s.connection s (open-Lifecycle s h e))
step-IsSafe (streaming w) s h =
    admitted-Safe s _ (λ e. on_statement-Safe w s.connection s (open-Lifecycle s h e))
step-IsSafe (committing w) s h =
    admitted-Safe s _ (λ e. on_last-Safe w commit_failed s.connection s tt (open-Lifecycle s h e))
step-IsSafe (aborting w) s h =
    admitted-Safe s _ (λ e. on_last-Safe w abort_failed s.connection s tt (open-Lifecycle s h e))
step-IsSafe (closing w) s h = close-Safe w s
step-IsSafe (closing_host w) s h =
    each Safe s.host_closed tt (each Safe s.registered (close-Safe w _) tt)
