-- ===== src/Fd/Error.antt =====
-- The errors of src/fd.rs.
use crabv.Base.{Result}
use crabv.Fs.Error.{FsError}

-- `FdError`
pub data FdError : Type 0 where
  bad_fd too_many_open not_found not_implemented would_block broken_pipe : FdError
  fs : FsError → FdError

abbrev pub FdResult : Type 0 → Type 0
FdResult A = Result FdError A
