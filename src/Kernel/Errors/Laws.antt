-- ===== src/Kernel/Errors/Laws.antt =====
-- What a client sees of an error.
use kg_os.Common.{codes, ◌≡◌, refl, ◌⊎◌, none, arith, ◌↔◌}
use kg_os.Kernel.Errors.{
  ErrorCode, GoError, plain, public, public_cause, database, diagnostic, wrapped, joined,
  find_public, error_details, as_public_error, status_of, http_status, write_json_error,
  internal_error, consistency_error, io_error,
}

-- The tree of an error holds neither a `PublicError` nor a `DatabaseError`.
abbrev pub IsOpaque : GoError → Type 0
IsOpaque (plain m) = Unit
IsOpaque (public c m) = ⊥
IsOpaque (public_cause c m e) = ⊥
IsOpaque (database k m e) = ⊥
IsOpaque (diagnostic i e) = IsOpaque e
IsOpaque (wrapped e) = IsOpaque e
IsOpaque (joined d e) = IsOpaque d × IsOpaque e

find_public_of_IsOpaque :
    (e : GoError) → IsOpaque e → (find_public e ≡ none) × (error_details e ≡ none)
unfolding find_public error_details
find_public_of_IsOpaque (plain m) h = (refl, refl)
find_public_of_IsOpaque (public c m) h = absurd h
find_public_of_IsOpaque (public_cause c m e) h = absurd h
find_public_of_IsOpaque (database k m e) h = absurd h
find_public_of_IsOpaque (diagnostic i e) h = find_public_of_IsOpaque e h
find_public_of_IsOpaque (wrapped e) h = find_public_of_IsOpaque e h
find_public_of_IsOpaque (joined d e) (h, k) =
    ground (arith, find_public_of_IsOpaque d h, find_public_of_IsOpaque e k)

-- Of an error whose tree holds neither a `PublicError` nor a `DatabaseError` the client sees
-- status 500 and one fixed text, whatever texts the tree holds.
pub write_json_error_opaque :
    (e : GoError)
    → IsOpaque e
    → write_json_error e
      ≡ (500, record { code = internal_error; message = codes "internal KG OS error" })
unfolding write_json_error http_status as_public_error
write_json_error_opaque e h = ground (arith, find_public_of_IsOpaque e h)

abbrev pub IsServerFault : ErrorCode → Type 0
IsServerFault c = (c ≡ internal_error) ⊎ ((c ≡ consistency_error) ⊎ (c ≡ io_error))

status_of_fault : (c : ErrorCode) → (status_of c ≡ 500) ↔ IsServerFault c
unfolding status_of
status_of_fault c = (λ h. ground arith, λ h. ground arith)

-- The status that is written is the status of the error itself, and it is 500 exactly when the
-- code in the body is one of the three that stand for a fault of the server.
pub write_json_error_status :
    (e : GoError)
    → ((write_json_error e).0 ≡ http_status e)
      × (((write_json_error e).0 ≡ 500) ↔ IsServerFault (write_json_error e).1.code)
unfolding write_json_error http_status
write_json_error_status e = (refl, status_of_fault (as_public_error e).code)
