-- ===== src/Lithograph/Transactions.antt =====
-- internal/lithograph/transaction.go and write_connection.go, with the host's part of them in
-- host.go: one transaction, the connection that it holds, and the host that may be closed.
-- Each statement leaves the connection in a transaction or in auto-commit as the database decides,
-- whether it succeeds or not. A list of faults is an error, the empty one is nil, and
-- `errors.Join` is `++`.
pub mod Tidy
pub mod Ends
use kg_os.Common.{
  ℕ, Bytes, codes, ◌∷◌, [], List, ◌++◌, Bool, true, false, not, Option, none, some, if◌then◌else◌,
  bytes_eq,
}

-- `*sql.Conn`.
pub record Connection : Type 0 where
  pub id : ℕ
  pub auto_commit : Bool

pub data Fault : Type 0 where
  host_is_closed transaction_is_closed not_acquired no_baseline invalid_options begin_failed
        statement_failed commit_failed abort_failed unsafe_connection release_failed
        nil_connection :
      Fault

abbrev pub Faults : Type 0
Faults = List Fault

-- Of a statement: whether it succeeds, and whether the connection is in auto-commit after it.
pub record Answer : Type 0 where
  pub succeeds : Bool
  pub auto_commit : Bool

-- Of the checkout of `main`: the `name` cells of its rows (`none` where there is no such text),
-- or an error, and the connection's auto-commit after it.
pub record Checkout : Type 0 where
  pub names : Option (List (Option Bytes))
  pub auto_commit : Bool

-- What one call meets: the answer to its own statement, to an abort in its cleanup, to the checkout
-- before the connection is given back, and whether giving it back succeeds.
pub record World : Type 0 where
  pub statement : Answer
  pub abort : Answer
  pub checkout : Checkout
  pub gives_back : Bool

-- What `Begin` meets besides.
pub record Opening : Type 0 where
  pub acquired : Option Connection
  pub baseline : Checkout
  pub options_encode : Bool
  pub host_closes : Bool
  pub world : World

-- `Transaction` with `Host.closed`, whether the transaction stands in `Host.transactions`, and where
-- connections went: back to the pool, or discarded.
pub record State : Type 0 where
  pub host_closed : Bool
  pub registered : Bool
  pub closed : Bool
  pub connection : Option Connection
  pub given_back : List Connection
  pub discarded : List Connection

abbrev pub Called : Type 0
Called = State × Faults

abbrev pub discard : Connection → State → State
discard c s = record s { discarded = c ∷ s.discarded }

abbrev pub after : Answer → Connection → Connection
after a c = record c { auto_commit = a.auto_commit }

unfoldable pub only_main : Option (List (Option Bytes)) → Bool
only_main (some (some name ∷ [])) = bytes_eq name (codes "main")
only_main names = false

-- `checkoutReusableMain`: the connection behind it, and whether it is fit for the pool.
unfoldable pub checkout_reusable_main : Checkout → Connection → Connection × Bool
checkout_reusable_main a c =
    let left = record c { auto_commit = a.auto_commit } in
    if not c.auto_commit
    then (c, false)
    else if only_main a.names
    then (left, left.auto_commit)
    else (left, false)

unfoldable pub released : World → Connection × Bool → State → Called
released w (c, false) s = (discard c s, unsafe_connection ∷ [])
released w (c, true) s =
    (record s { given_back = c ∷ s.given_back }, if w.gives_back then [] else release_failed ∷ [])

-- `releaseWriteConnection`.
unfoldable pub release : World → Connection → State → Called
unfolding released
release w c s = released w (checkout_reusable_main w.checkout c) s

-- `closed = true; connection = nil` and `unregisterTransaction`.
abbrev pub forget : State → State
forget s = record s { closed = true; connection = none; registered = false }

abbrev pub finished : Called → Called
finished m = (forget m.0, m.1)

abbrev pub joined : Fault → Called → Called
joined f m = (m.0, f ∷ m.1)

unfoldable pub fail_connection : World → Option Connection → State → Called
fail_connection w none s = (forget s, [])
fail_connection w (some c) s =
    if c.auto_commit
    then finished (release w c s)
    else if w.abort.succeeds
    then finished (release w (after w.abort c) s)
    else (forget (discard (after w.abort c) s), abort_failed ∷ [])

-- `failClosed`.
unfoldable pub fail_closed : World → State → Called
unfolding fail_connection
fail_closed w s = fail_connection w s.connection s

-- A statement of the caller's; with no connection it would be a nil dereference.
unfoldable pub on_statement : World → Option Connection → State → Called
on_statement w none s = (s, nil_connection ∷ [])
on_statement w (some c) s =
    let s' = record s { connection = some (after w.statement c) } in
    if w.statement.succeeds then (s', []) else joined statement_failed (fail_closed w s')

-- The last statement: `lithograph_tx_commit` or `lithograph_tx_abort`.
unfoldable pub on_last : World → Fault → Option Connection → State → Called
on_last w f none s = (s, nil_connection ∷ [])
on_last w f (some c) s =
    let s' = record s { connection = some (after w.statement c) } in
    if w.statement.succeeds
    then finished (release w (after w.statement c) s')
    else joined f (fail_closed w s')

-- `operationContext`, and the test of `closed` under the transaction's lock.
abbrev pub admitted : State → Called → Called
admitted s next =
    if s.host_closed
    then (s, host_is_closed ∷ [])
    else if s.closed
    then (s, transaction_is_closed ∷ [])
    else next

unfoldable pub execute : World → State → Called
unfolding on_statement
execute w s = admitted s (on_statement w s.connection s)

-- The statement fails here also where the consumer of its events does.
unfoldable pub stream : World → State → Called
unfolding on_statement
stream w s = admitted s (on_statement w s.connection s)

unfoldable pub commit : World → State → Called
unfolding on_last
commit w s = admitted s (on_last w commit_failed s.connection s)

unfoldable pub abort_transaction : World → State → Called
unfolding on_last
abort_transaction w s = admitted s (on_last w abort_failed s.connection s)

unfoldable pub close_connection : World → Option Connection → State → Called
close_connection w none s = (forget s, [])
close_connection w (some c) s =
    if w.abort.succeeds
    then finished (release w (after w.abort c) s)
    else (forget (discard (after w.abort c) s), abort_failed ∷ [])

-- `Transaction.Close`.
unfoldable pub close : World → State → Called
unfolding close_connection
close w s = if s.closed then (s, []) else close_connection w s.connection s

-- `Host.Close`, as far as this transaction goes.
unfoldable pub close_host : World → State → Called
close_host w s =
    let s' = record s { host_closed = true } in
    if s.host_closed then (s, []) else if s.registered then close w s' else (s', [])

-- `registerTransaction`, which fails if the host was closed meanwhile.
unfoldable pub registered_transaction : Opening → State → Called
registered_transaction o s =
    if o.host_closes
    then joined host_is_closed (close o.world (record s { host_closed = true }))
    else (record s { registered = true }, [])

unfoldable pub begin_baseline : Opening → Connection × Bool → State → Called
unfolding registered_transaction
begin_baseline o (c, false) s = (discard c s, no_baseline ∷ [])
begin_baseline o (c, true) s =
    let begun = after o.world.statement c in
    if not o.options_encode
    then joined invalid_options (release o.world c s)
    else if not o.world.statement.succeeds
    then (discard begun s, begin_failed ∷ [])
    else registered_transaction o (record s { connection = some begun; closed = false })

unfoldable pub begin_acquired : Opening → Option Connection → State → Called
unfolding begin_baseline
begin_acquired o none s = (s, not_acquired ∷ [])
begin_acquired o (some c) s = begin_baseline o (checkout_reusable_main o.baseline c) s

-- Before `Begin`, and where it fails, there is no transaction: a closed one stands for that.
abbrev pub no_transaction : Bool → State
no_transaction host_closed = record {
  host_closed = host_closed;
  registered = false;
  closed = true;
  connection = none;
  given_back = [];
  discarded = [];
}

-- `Host.Begin`.
unfoldable pub begin : Opening → Bool → Called
unfolding begin_acquired
begin o host_closed =
    let s = no_transaction host_closed in
    if host_closed then (s, host_is_closed ∷ []) else begin_acquired o o.acquired s

-- What may be done with the transaction.
pub data Call : Type 0 where
  executing streaming committing aborting closing closing_host : World → Call

unfoldable pub step : Call → State → Called
step (executing w) s = execute w s
step (streaming w) s = stream w s
step (committing w) s = commit w s
step (aborting w) s = abort_transaction w s
step (closing w) s = close w s
step (closing_host w) s = close_host w s

unfoldable pub run : List Call → State → State
run [] s = s
run (c ∷ calls) s = run calls (step c s).0
