-- ===== src/Fs/Error.antt =====
-- The errors of src/fs.rs, and those of the block device that it passes on (src/virtio.rs).
use crabv.Base.{ℕ}

-- `VirtioError`
pub data VirtioError : Type 0 where
  device_not_found unsupported_device : VirtioError
  legacy_only : ℕ → VirtioError
  queue_unavailable device_rejected_features device_failure : VirtioError

-- `FsError`
pub data FsError : Type 0 where
  not_initialized name_too_long directory_full not_found no_space invalid_encoding : FsError
  device_init_failed : VirtioError → FsError
  invalid_path not_a_directory already_exists directory_not_empty is_directory is_file : FsError
