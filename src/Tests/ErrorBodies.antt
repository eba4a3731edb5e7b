-- ===== src/Tests/ErrorBodies.antt =====
-- Errors: internal/kernel/errors.go.
use kg_os.Common.{codes, ◌≡◌, ◌↔◌, some, refl}
use kg_os.Kernel.Errors.{
  GoError, plain, wrapped, joined, database, diagnostic, internal_error, http_status,
  write_json_error, mark_consistency_issue, marked_consistency_issue, ErrorCategory,
}
use kg_os.Kernel.Errors.Laws.{write_json_error_opaque, write_json_error_status, IsServerFault}
use kg_os.Kernel.Errors.Shown.{IsShown, write_json_error-IsShown}

abbrev secret : GoError
secret = wrapped (joined (plain (codes "disk path")) (plain (codes "key")))

abbrev marked : GoError
marked = diagnostic (codes "a") (plain (codes "disk path"))

mark_test :
    mark_consistency_issue (codes "b") (some (wrapped marked))
    ≡ some (diagnostic (codes "b") (wrapped marked))
unfolding mark_consistency_issue
mark_test = refl

-- The outer mark is read, through what wraps it, in the place of an inner one.
marked_test :
    marked_consistency_issue (wrapped (diagnostic (codes "b") (wrapped marked))) ≡ some (codes "b")
unfolding marked_consistency_issue
marked_test = refl

abbrev moved : GoError
moved = wrapped (database ErrorCategory.branch_head_moved (codes "main") (plain (codes "sqlite")))

write_json_error_opaque_example :
    write_json_error secret
    ≡ (500, record { code = internal_error; message = codes "internal KG OS error" })
write_json_error_opaque_example = write_json_error_opaque secret (tt, tt)

write_json_error_status_example :
    ((write_json_error moved).0 ≡ http_status moved)
    × (((write_json_error moved).0 ≡ 500) ↔ IsServerFault (write_json_error moved).1.code)
write_json_error_status_example = write_json_error_status moved

write_json_error-IsShown_example : IsShown moved (write_json_error moved).1
write_json_error-IsShown_example = write_json_error-IsShown moved
