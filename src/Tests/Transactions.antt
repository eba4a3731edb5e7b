-- ===== src/Tests/Transactions.antt =====
-- Explicit transactions: internal/lithograph/transaction.go.
use kg_os.Common.{
  codes, ◌∷◌, [], List, Bool, true, false, Option, some, none, length, ◌≡◌, refl, All,
}
use kg_os.Lithograph.Transactions.{
  Checkout, World, Opening, State, begin, begin_acquired, begin_baseline, registered_transaction,
  checkout_reusable_main, only_main, Call, executing, streaming, committing, closing_host, step,
  run,
}
use kg_os.Lithograph.Transactions.Tidy.{IsTidy, run-begin-IsTidy}
use kg_os.Lithograph.Transactions.Ends.{step-IsSafe, IsSafe}

abbrev fit : Checkout
fit = record { names = some (some (codes "main") ∷ []); auto_commit = true }

-- The statement fails inside the transaction, and the abort succeeds.
abbrev failing : World
failing = record {
  statement = record { succeeds = false; auto_commit = false };
  abort = record { succeeds = true; auto_commit = true };
  checkout = fit;
  gives_back = true;
}

abbrev opening : Opening
opening = record {
  acquired = some (record { id = 7; auto_commit = true });
  baseline = fit;
  options_encode = true;
  host_closes = false;
  world = record failing { statement = record { succeeds = true; auto_commit = false } };
}

opens : (begin opening false).1 ≡ []
unfolding begin begin_acquired begin_baseline registered_transaction checkout_reusable_main
    only_main kg_os.Common.bytes_eq
opens = refl

abbrev calls : List Call
calls = executing opening.world ∷ streaming failing ∷ committing failing ∷ closing_host failing ∷ []

run-begin-IsTidy_example : IsTidy (run calls (begin opening false).0)
run-begin-IsTidy_example = run-begin-IsTidy opening false calls opens

abbrev begun : State
begun = (begin opening false).0

begun-IsTidy : IsTidy begun
unfolding begin begin_acquired begin_baseline registered_transaction checkout_reusable_main
    only_main kg_os.Common.bytes_eq
begun-IsTidy = record { lifecycle = tt; clean = tt; once = refl }

step-IsSafe_example : All IsSafe (step (committing failing) begun).1
step-IsSafe_example = step-IsSafe (committing failing) begun begun-IsTidy
