-- ===== src/Kernel/Errors/Shown.antt =====
-- Whose texts a client may see.
use kg_os.Common.{Bytes, codes, List, [], ◌∷◌, ◌++◌, Option, none, some, ◌≡◌, refl, ◌⊎◌, inl, inr}
use kg_os.Kernel.Errors.{
  ErrorCode, ErrorCategory, GoError, parse_error, semantic_error, type_error, schema_error,
  constraint_error, resource_error, io_error, plain, public, public_cause, database, diagnostic,
  wrapped, joined, PublicError, as_public_error, version_not_found, or_else, find_public,
  error_details, public_or, of_details, of_category, write_json_error, internal_error,
  state_not_found, stale_base_state, parse, semantic, type, schema, constraint, resource, io,
}

-- The public errors of a tree, the outer ones first.
abbrev pub publics : GoError → List PublicError
publics (plain m) = []
publics (public c m) = record { code = c; message = m } ∷ []
publics (public_cause c m e) = record { code = c; message = m } ∷ publics e
publics (database k m e) = publics e
publics (diagnostic i e) = publics e
publics (wrapped e) = publics e
publics (joined d e) = publics d ++ publics e

-- The database errors of a tree.
abbrev pub databases : GoError → List (ErrorCategory × Bytes)
databases (plain m) = []
databases (public c m) = []
databases (public_cause c m e) = databases e
databases (database k m e) = (k, m) ∷ databases e
databases (diagnostic i e) = databases e
databases (wrapped e) = databases e
databases (joined d e) = databases d ++ databases e

-- The categories whose texts a client may see, with the code that goes with each.
abbrev pub client_code : ErrorCategory → Option ErrorCode
client_code ErrorCategory.invalid_argument = some ErrorCode.invalid_argument
client_code parse = some parse_error
client_code semantic = some semantic_error
client_code type = some type_error
client_code schema = some schema_error
client_code constraint = some constraint_error
client_code resource = some resource_error
client_code io = some io_error
client_code ErrorCategory.branch_not_found = some ErrorCode.branch_not_found
client_code ErrorCategory.tag_not_found = some ErrorCode.tag_not_found
client_code ErrorCategory.read_only_snapshot = some ErrorCode.read_only_snapshot
client_code _ = none

-- The texts that hold nothing of the error.
abbrev pub IsFixed : PublicError → Type 0
IsFixed p =
    (p ≡ record { code = internal_error; message = codes "internal KG OS error" })
    ⊎ ((p ≡ record { code = state_not_found; message = codes "state was not found" })
        ⊎ (p ≡ record {
          code = stale_base_state;
          message = codes "target branch head no longer matches baseState";
        }))

-- The first database error of the tree has the text, and its category the code.
pub record IsFrom (e : GoError) (p : PublicError) : Type 0 where
  pub category : ErrorCategory
  pub rest : List (ErrorCategory × Bytes)
  pub is_first : databases e ≡ (category, p.message) ∷ rest
  pub is_for_clients : client_code category ≡ some p.code

abbrev first {ℓ} : {A : Type ℓ} → List A → Option A
first [] = none
first (x ∷ xs) = some x

or_else-first {ℓ} : {A : Type ℓ} (xs ys : List A) → or_else (first xs) (first ys) ≡ first (xs ++ ys)
or_else-first [] ys = refl
or_else-first (x ∷ xs) ys = refl

find_public-first : (e : GoError) → find_public e ≡ first (publics e)
unfolding find_public
find_public-first (plain m) = refl
find_public-first (public c m) = refl
find_public-first (public_cause c m e) = refl
find_public-first (database k m e) = find_public-first e
find_public-first (diagnostic i e) = find_public-first e
find_public-first (wrapped e) = find_public-first e
find_public-first (joined d e) =
    rw (find_public-first d, find_public-first e) (or_else-first (publics d) (publics e))

error_details-first : (e : GoError) → error_details e ≡ first (databases e)
unfolding error_details
error_details-first (plain m) = refl
error_details-first (public c m) = refl
error_details-first (public_cause c m e) = error_details-first e
error_details-first (database k m e) = refl
error_details-first (diagnostic i e) = error_details-first e
error_details-first (wrapped e) = error_details-first e
error_details-first (joined d e) =
    rw (error_details-first d, error_details-first e) (or_else-first (databases d) (databases e))

of_category-cases :
    (k : ErrorCategory) (m : Bytes)
    → ((client_code k ≡ some (of_category k m).code) × ((of_category k m).message ≡ m))
      ⊎ IsFixed (of_category k m)
unfolding of_category
of_category-cases ErrorCategory.invalid_argument m = inl (refl, refl)
of_category-cases parse m = inl (refl, refl)
of_category-cases semantic m = inl (refl, refl)
of_category-cases type m = inl (refl, refl)
of_category-cases schema m = inl (refl, refl)
of_category-cases constraint m = inl (refl, refl)
of_category-cases resource m = inl (refl, refl)
of_category-cases io m = inl (refl, refl)
of_category-cases ErrorCategory.branch_not_found m = inl (refl, refl)
of_category-cases ErrorCategory.tag_not_found m = inl (refl, refl)
of_category-cases ErrorCategory.read_only_snapshot m = inl (refl, refl)
of_category-cases version_not_found m = inr (inr (inl refl))
of_category-cases ErrorCategory.branch_head_moved m = inr (inr (inr refl))
of_category-cases _ m = inr (inl refl)

-- What the body of an error may be.
abbrev pub IsShown : GoError → PublicError → Type 0
IsShown e p =
    ((rest : List PublicError) × (publics e ≡ p ∷ rest))
    ⊎ ((publics e ≡ []) × (IsFrom e p ⊎ IsFixed p))

module _ (e : GoError) where
  of_details-cases :
      (found : List (ErrorCategory × Bytes))
      → databases e ≡ found
      → IsFrom e (of_details (first found)) ⊎ IsFixed (of_details (first found))
  unfolding of_details
  of_details-cases [] same = inr (inl refl)
  of_details-cases ((k, m) ∷ rest) same = elim (of_category-cases k m) [
    | inl (is_for_clients, text) ↦ inl (record {
      category = k;
      rest = rest;
      is_first = rw text same;
      is_for_clients = is_for_clients;
    })
    | inr fixed ↦ inr fixed
  ]

  public_or-IsShown :
      (found : List PublicError) → publics e ≡ found → IsShown e (public_or (first found) e)
  unfolding public_or
  public_or-IsShown [] same =
      inr (same, rw (error_details-first e) (of_details-cases (databases e) refl))
  public_or-IsShown (p ∷ rest) same = inl (rest, same)

-- The body that a client receives is the first `PublicError` of the tree, if there is one.
-- Otherwise it has the text of the tree's first database error, of one of the eleven categories
-- that clients may see, and the code of that category; or it is one of three fixed bodies, which
-- hold nothing of the error.
pub write_json_error-IsShown : (e : GoError) → IsShown e (write_json_error e).1
unfolding write_json_error as_public_error
write_json_error-IsShown e = rw (find_public-first e) (public_or-IsShown e (publics e) refl)
