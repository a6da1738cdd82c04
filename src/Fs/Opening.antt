-- ===== src/Fs/Opening.antt =====
-- The flags with which src/fs.rs opens a file, the sizes that it transfers, and its descriptors.
use uringy.Common.{ℕ, ◌+◌, ◌*◌, ◌^◌, ◌≤◌, ◌<◌, ◌≡◌, Bool, true, false, ◌||◌, err, arith}
use uringy.Errors.{raw_os}
use uringy.Fs.{
  OpenOptions, open_flags, get_access_mode, get_creation_mode, access_mode, creation_mode,
  is_refused, einval, transfer_len,
}

-- With append access, write access makes no difference.
pub open_flags-append :
    (o : OpenOptions) (write : Bool)
    → open_flags (record o { append = true; write = write })
      ≡ open_flags (record o { append = true; write = false })
unfolding open_flags get_access_mode get_creation_mode access_mode is_refused
open_flags-append o write = ground arith

-- If a new file is to be created, whether to create or to truncate one is ignored.
pub open_flags-create_new :
    (o : OpenOptions) (create truncate : Bool)
    → open_flags (record o { create_new = true; create = create; truncate = truncate })
      ≡ open_flags (record o { create_new = true; create = false; truncate = false })
unfolding open_flags get_access_mode get_creation_mode access_mode is_refused creation_mode
open_flags-create_new o create truncate = ground arith

-- Without write and append access, a file is neither created nor truncated: opening is an invalid
-- argument.
pub open_flags-needs_write :
    (o : OpenOptions)
    → o.write ≡ false
    → o.append ≡ false
    → (o.create || o.truncate || o.create_new) ≡ true
    → open_flags o ≡ err (raw_os einval)
unfolding open_flags get_access_mode get_creation_mode access_mode is_refused
open_flags-needs_write o no_write no_append asked = ground arith

-- A read or a write transfers no more than the buffer has, and all of it if the buffer is below 4 GiB;
-- of a buffer of a multiple of 4 GiB, it transfers nothing.
pub transfer_len_lem :
    (len k : ℕ)
    → len < 2 ^ 32
    → (transfer_len (k * 2 ^ 32 + len) ≡ len) × (transfer_len (k * 2 ^ 32 + len) ≤ k * 2 ^ 32 + len)
unfolding transfer_len
transfer_len_lem len k small = (omega arith, omega arith)
