-- ===== src/Syscall/Errno.antt =====
-- The errors of src/syscall.rs and the numbers that a program gets for them. A negative number is
-- its 64-bit pattern.
use crabv.Base.{
  ℕ, ◌-◌, ◌^◌, ◌≡◌, ◌↔◌, refl, Bool, true, false, arith, Result, ok, err, leb, ◌&&◌, ◌==◌, ap,
}
use crabv.Fs.Error.{
  FsError, not_initialized, name_too_long, directory_full, not_found, no_space, invalid_encoding,
  device_init_failed, invalid_path, not_a_directory, already_exists, directory_not_empty,
  is_directory, is_file,
}
use crabv.Fd.Error.{FdError, bad_fd, too_many_open, not_implemented, would_block, broken_pipe}
use crabv.Proc.{SpawnError, too_many_processes, program_not_found, load_failed, out_of_memory}

-- `enum SysError`
pub data SysError : Type 0 where
  no_sys : SysError
  no_fd : SysError
  invalid_utf8 : SysError
  fault : SysError
  fs : FsError → SysError
  fd : FdError → SysError
  proc : SpawnError → SysError
  child : SysError
  no_process : SysError

abbrev pub SysResult : Type 0 → Type 0
SysResult A = Result SysError A

-- `- n` as an `isize`
abbrev pub negative : ℕ → ℕ
negative n = 2 ^ 64 - n

unfoldable pub fs_errno : FsError → ℕ
fs_errno not_initialized = negative 5
fs_errno name_too_long = negative 36
fs_errno directory_full = negative 28
fs_errno no_space = negative 28
fs_errno not_found = negative 2
fs_errno invalid_encoding = negative 22
fs_errno invalid_path = negative 22
fs_errno (device_init_failed e) = negative 6
fs_errno not_a_directory = negative 20
fs_errno is_file = negative 20
fs_errno already_exists = negative 17
fs_errno directory_not_empty = negative 39
fs_errno is_directory = negative 21

unfoldable pub fd_errno : FdError → ℕ
fd_errno bad_fd = negative 9
fd_errno too_many_open = negative 24
fd_errno FdError.not_found = negative 2
fd_errno not_implemented = negative 38
fd_errno would_block = negative 11
fd_errno broken_pipe = negative 32
fd_errno (FdError.fs e) = fs_errno e

unfoldable pub proc_errno : SpawnError → ℕ
proc_errno too_many_processes = negative 24
proc_errno program_not_found = negative 2
proc_errno load_failed = negative 5
proc_errno out_of_memory = negative 12

unfoldable pub errno : SysError → ℕ
errno no_sys = negative 38
errno no_fd = negative 9
errno invalid_utf8 = negative 22
errno fault = negative 14
errno (fs e) = fs_errno e
errno (fd e) = fd_errno e
errno (proc e) = proc_errno e
errno child = negative 10
errno no_process = negative 9

-- The end of `dispatch`.
unfoldable pub return_code : SysResult ℕ → ℕ
return_code (ok n) = n
return_code (err e) = errno e

-- A number from -39 to -2.
unfoldable pub is_errno : ℕ → Bool
is_errno n = leb (negative 39) n && leb n (negative 2)

-- The number that makes a program try again.
abbrev pub eagain : ℕ
eagain = negative 11

fs_errno-other : (e : FsError) → (is_errno (fs_errno e) ≡ true) × ((fs_errno e == eagain) ≡ false)
unfolding fs_errno is_errno
fs_errno-other e = ground arith

fd_errno_fs :
    (e : FsError)
    → (is_errno (fd_errno (FdError.fs e)) ≡ true) × ((fd_errno (FdError.fs e) == eagain) ≡ false)
unfolding fd_errno
fd_errno_fs e = fs_errno-other e

fd_errno_lem :
    (e : FdError) → (is_errno (fd_errno e) ≡ true) × ((fd_errno e ≡ eagain) ↔ (e ≡ would_block))
unfolding fd_errno is_errno
fd_errno_lem (FdError.fs e) =
    let (r, n) = fd_errno_fs e in (r, (λ same. absurd (ground arith), λ same. absurd (cc)))
fd_errno_lem bad_fd = (refl, (λ e. absurd (ground arith), λ e. absurd (cc)))
fd_errno_lem too_many_open = (refl, (λ e. absurd (ground arith), λ e. absurd (cc)))
fd_errno_lem FdError.not_found = (refl, (λ e. absurd (ground arith), λ e. absurd (cc)))
fd_errno_lem not_implemented = (refl, (λ e. absurd (ground arith), λ e. absurd (cc)))
fd_errno_lem would_block = (refl, (λ e. refl, λ e. refl))
fd_errno_lem broken_pipe = (refl, (λ e. absurd (ground arith), λ e. absurd (cc)))

-- The number that a program gets for an error is negative, from -39 to -2, and it is EAGAIN, for
-- which the functions of the user library try again, exactly if the error is that the call would
-- block.
pub errno-eagain :
    (e : SysError)
    → (is_errno (errno e) ≡ true) × ((errno e ≡ eagain) ↔ (e ≡ SysError.fd would_block))
unfolding errno proc_errno is_errno
errno-eagain (SysError.fd e) =
    let (r, same) = fd_errno_lem e in (r, (λ h. ap SysError.fd (same.0 h), λ h. same.1 (cc)))
errno-eagain (SysError.fs e) =
    let (r, n) = fs_errno-other e in (r, (λ same. absurd (ground arith), λ same. absurd (cc)))
errno-eagain (SysError.proc too_many_processes) =
    (refl, (λ e. absurd (ground arith), λ e. absurd (cc)))
errno-eagain (SysError.proc program_not_found) =
    (refl, (λ e. absurd (ground arith), λ e. absurd (cc)))
errno-eagain (SysError.proc load_failed) = (refl, (λ e. absurd (ground arith), λ e. absurd (cc)))
errno-eagain (SysError.proc out_of_memory) = (refl, (λ e. absurd (ground arith), λ e. absurd (cc)))
errno-eagain no_sys = (refl, (λ e. absurd (ground arith), λ e. absurd (cc)))
errno-eagain no_fd = (refl, (λ e. absurd (ground arith), λ e. absurd (cc)))
errno-eagain invalid_utf8 = (refl, (λ e. absurd (ground arith), λ e. absurd (cc)))
errno-eagain fault = (refl, (λ e. absurd (ground arith), λ e. absurd (cc)))
errno-eagain child = (refl, (λ e. absurd (ground arith), λ e. absurd (cc)))
errno-eagain no_process = (refl, (λ e. absurd (ground arith), λ e. absurd (cc)))
