-- ===== src/Kernel/Errors.antt =====
-- internal/kernel/errors.go: public error codes, errors as Go values, their HTTP status.
-- An error is a tree: `fmt.Errorf("…: %w", e)` is `wrapped`, `errors.Join` is `joined`.
pub mod Laws
pub mod Shown
use kg_os.Common.{Bytes, codes, ℕ, Option, some, none, Outcome, List, [], ◌∷◌}

pub data ErrorCode : Type 0 where
  object_not_found object_conflict patch_base_mismatch stale_base_state consistency_error
        unsupported_operation state_not_found reserved_identifier authentication_failed
        web_connection_changed invalid_argument parse_error semantic_error type_error schema_error
        constraint_error branch_not_found tag_not_found branch_head_moved merge_conflict
        merge_session_not_found merge_session_changed read_only_snapshot resource_error io_error
        internal_error :
      ErrorCode

-- The categories of internal/lithograph/errors.go.
pub data ErrorCategory : Type 0 where
  parse semantic type schema constraint not_initialized invalid_argument graph_view_violation
        version_not_found branch_not_found tag_not_found branch_head_moved merge_conflict
        merge_session_not_found merge_session_changed transaction_boundary_required
        read_only_snapshot format_too_new busy resource interrupted storage io internal :
      ErrorCategory

-- `PublicError` and `DatabaseError` with or without a cause; `consistencyDiagnostic`.
pub data GoError : Type 0 where
  plain : Bytes → GoError
  public : ErrorCode → Bytes → GoError
  public_cause : ErrorCode → Bytes → GoError → GoError
  database : ErrorCategory → Bytes → GoError → GoError
  diagnostic : Bytes → GoError → GoError
  wrapped : GoError → GoError
  joined : GoError → GoError → GoError

-- The results of the kernel's code; a message is left out where only the code matters.
abbrev pub Result {ℓ} : Type ℓ → Type ℓ
Result A = Outcome ErrorCode A

pub record PublicError : Type 0 where
  pub code : ErrorCode
  pub message : Bytes

abbrev or_else {ℓ} : {A : Type ℓ} → Option A → Option A → Option A
or_else none b = b
or_else (some a) b = some a

-- `errors.As(err, &public)`: the first `*PublicError`, in preorder.
unfoldable pub find_public : GoError → Option PublicError
find_public (plain m) = none
find_public (public c m) = some (record { code = c; message = m })
find_public (public_cause c m e) = some (record { code = c; message = m })
find_public (database k m e) = find_public e
find_public (diagnostic i e) = find_public e
find_public (wrapped e) = find_public e
find_public (joined d e) = or_else (find_public d) (find_public e)

-- `lithograph.ErrorDetails`: the first `*DatabaseError`.
unfoldable pub error_details : GoError → Option (ErrorCategory × Bytes)
error_details (plain m) = none
error_details (public c m) = none
error_details (public_cause c m e) = error_details e
error_details (database k m e) = some (k, m)
error_details (diagnostic i e) = error_details e
error_details (wrapped e) = error_details e
error_details (joined d e) = or_else (error_details d) (error_details e)

-- `errors.As(err, &diagnostic)`, and `markedConsistencyIssue`: the first diagnostic's issue,
-- unless that is empty.
find_issue : GoError → Option Bytes
find_issue (plain m) = none
find_issue (public c m) = none
find_issue (public_cause c m e) = find_issue e
find_issue (database k m e) = find_issue e
find_issue (diagnostic i e) = some i
find_issue (wrapped e) = find_issue e
find_issue (joined d e) = or_else (find_issue d) (find_issue e)

nonempty : Option Bytes → Option Bytes
nonempty (some []) = none
nonempty o = o

unfoldable pub marked_consistency_issue : GoError → Option Bytes
unfolding find_issue nonempty
marked_consistency_issue e = nonempty (find_issue e)

unfoldable pub mark_consistency_issue : Bytes → Option GoError → Option GoError
mark_consistency_issue issue none = none
mark_consistency_issue issue (some e) = some (diagnostic issue e)

abbrev internal_message : Bytes
internal_message = codes "internal KG OS error"

-- The `switch category` of `AsPublicError`.
of_category : ErrorCategory → Bytes → PublicError
of_category version_not_found m = record {
  code = state_not_found;
  message = codes "state was not found";
}
of_category ErrorCategory.branch_head_moved m = record {
  code = stale_base_state;
  message = codes "target branch head no longer matches baseState";
}
of_category ErrorCategory.invalid_argument m = record { code = invalid_argument; message = m }
of_category parse m = record { code = parse_error; message = m }
of_category semantic m = record { code = semantic_error; message = m }
of_category type m = record { code = type_error; message = m }
of_category schema m = record { code = schema_error; message = m }
of_category constraint m = record { code = constraint_error; message = m }
of_category resource m = record { code = resource_error; message = m }
of_category io m = record { code = io_error; message = m }
of_category ErrorCategory.branch_not_found m = record { code = branch_not_found; message = m }
of_category ErrorCategory.tag_not_found m = record { code = tag_not_found; message = m }
of_category ErrorCategory.read_only_snapshot m = record { code = read_only_snapshot; message = m }
of_category _ m = record { code = internal_error; message = internal_message }

of_details : Option (ErrorCategory × Bytes) → PublicError
of_details none = record { code = internal_error; message = internal_message }
of_details (some (k, m)) = of_category k m

public_or : Option PublicError → GoError → PublicError
public_or (some p) e = p
public_or none e = of_details (error_details e)

-- `AsPublicError` of an error that is not nil.
unfoldable pub as_public_error : GoError → PublicError
unfolding public_or of_details of_category find_public error_details
as_public_error e = public_or (find_public e) e

status_of : ErrorCode → ℕ
status_of authentication_failed = 401
status_of object_not_found = 404
status_of state_not_found = 404
status_of branch_not_found = 404
status_of tag_not_found = 404
status_of merge_session_not_found = 404
status_of object_conflict = 409
status_of patch_base_mismatch = 409
status_of stale_base_state = 409
status_of constraint_error = 409
status_of branch_head_moved = 409
status_of merge_conflict = 409
status_of merge_session_changed = 409
status_of web_connection_changed = 409
status_of invalid_argument = 400
status_of parse_error = 400
status_of semantic_error = 400
status_of type_error = 400
status_of reserved_identifier = 400
status_of unsupported_operation = 400
status_of schema_error = 400
status_of read_only_snapshot = 400
status_of resource_error = 413
status_of _ = 500

unfoldable pub http_status : GoError → ℕ
unfolding as_public_error status_of
http_status e = status_of (as_public_error e).code

-- `WriteJSONError`: the status and the body that are written.
unfoldable pub write_json_error : GoError → ℕ × PublicError
unfolding http_status
write_json_error e = let p = as_public_error e in (http_status (public p.code p.message), p)
