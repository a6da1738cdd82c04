-- ===== src/Fs.antt =====
-- src/fs.rs: the options of opening a file and the sizes of reads and writes. A flag set is a number;
-- `bit_or` and `bit_and` are `|` and `&`.
pub mod Calls
mod Descriptors
mod Whole
mod Opening
mod Tests
use Prim.Native.Nat.{bit_or, bit_and, min}
use uringy.Common.{
  ℕ, ◌+◌, ◌-◌, ◌%◌, ◌^◌, ◌≡◌, Bool, true, false, not, ◌&&◌, ◌||◌, Option, none, some, List, [], ◌∷◌,
  Result, ok, err, if◌then◌else◌, ◌==◌,
}
use uringy.Errors.{Error, original, IoError, raw_os}

-- The constants of `libc`, which Linux documents.
abbrev pub o_rdonly : ℕ
o_rdonly = 0

abbrev pub o_wronly : ℕ
o_wronly = 1

abbrev pub o_rdwr : ℕ
o_rdwr = 2

abbrev pub o_accmode : ℕ
o_accmode = 3

abbrev pub o_creat : ℕ
o_creat = 0x40

abbrev pub o_excl : ℕ
o_excl = 0x80

abbrev pub o_trunc : ℕ
o_trunc = 0x200

abbrev pub o_append : ℕ
o_append = 0x400

abbrev pub o_cloexec : ℕ
o_cloexec = 0x80000

abbrev pub einval : ℕ
einval = 22

pub record OpenOptions : Type 0 where
  pub read : Bool
  pub write : Bool
  pub append : Bool
  pub truncate : Bool
  pub create : Bool
  pub create_new : Bool
  -- The bits of an `i32`.
  pub custom_flags : ℕ
  pub mode : ℕ

-- `OpenOptions::new`
unfoldable pub new_options : OpenOptions
new_options = record {
  read = false;
  write = false;
  append = false;
  truncate = false;
  create = false;
  create_new = false;
  custom_flags = 0;
  mode = 0x1B6;
}

-- `OpenOptions::read`, `write`, `append`, `truncate`, `create` and `create_new`
unfoldable pub with_read : Bool → OpenOptions → OpenOptions
with_read read_ o = record o { read = read_ }

unfoldable pub with_write : Bool → OpenOptions → OpenOptions
with_write write_ o = record o { write = write_ }

unfoldable pub with_append : Bool → OpenOptions → OpenOptions
with_append append_ o = record o { append = append_ }

unfoldable pub with_truncate : Bool → OpenOptions → OpenOptions
with_truncate truncate_ o = record o { truncate = truncate_ }

unfoldable pub with_create : Bool → OpenOptions → OpenOptions
with_create create_ o = record o { create = create_ }

unfoldable pub with_create_new : Bool → OpenOptions → OpenOptions
with_create_new create_new_ o = record o { create_new = create_new_ }

-- The options of `File::open` and `File::create`
unfoldable pub file_open_options : OpenOptions
unfolding new_options with_read
file_open_options = with_read true new_options

unfoldable pub file_create_options : OpenOptions
unfolding new_options with_write with_create with_truncate
file_create_options = with_truncate true (with_create true (with_write true new_options))

abbrev pub Flags : Type 0
Flags = Result ℕ IoError

-- `get_access_mode`, on the three options that it matches on
unfoldable pub access_mode : Bool → Bool → Bool → Flags
access_mode true false false = ok o_rdonly
access_mode false true false = ok o_wronly
access_mode true true false = ok o_rdwr
access_mode false true true = ok (bit_or o_wronly o_append)
access_mode false false true = ok (bit_or o_wronly o_append)
access_mode true true true = ok (bit_or o_rdwr o_append)
access_mode true false true = ok (bit_or o_rdwr o_append)
access_mode false false false = err (raw_os einval)

unfoldable pub get_access_mode : OpenOptions → Flags
unfolding access_mode
get_access_mode o = access_mode o.read o.write o.append

-- The first `match` of `get_creation_mode`: whether it returns an error.
unfoldable pub is_refused : Bool → Bool → OpenOptions → Bool
is_refused true false o = false
is_refused false false o = o.truncate || o.create || o.create_new
is_refused true true o = o.truncate && not o.create_new
is_refused false true o = o.truncate && not o.create_new

-- The second one
unfoldable pub creation_mode : Bool → Bool → Bool → ℕ
creation_mode false false false = 0
creation_mode true false false = o_creat
creation_mode false true false = o_trunc
creation_mode true true false = bit_or o_creat o_trunc
creation_mode create truncate true = bit_or o_creat o_excl

unfoldable pub get_creation_mode : OpenOptions → Flags
unfolding is_refused creation_mode
get_creation_mode o =
    if is_refused o.write o.append o
    then err (raw_os einval)
    else ok (creation_mode o.create o.truncate o.create_new)

-- The flags that `open` gives to the kernel.
unfoldable pub open_flags : OpenOptions → Flags
unfolding get_access_mode get_creation_mode
open_flags o = elim (get_access_mode o) [
  | err e ↦ err e
  | ok access ↦ elim (get_creation_mode o) [
    | err e ↦ err e
    | ok creation ↦ ok (
        bit_or (bit_or (bit_or o_cloexec access) creation)
          (bit_and o.custom_flags (2 ^ 32 - 1 - o_accmode)))
  ]
]

-- `libc::ssize_t::MAX as u32`
abbrev pub read_limit : ℕ
read_limit = (2 ^ 63 - 1) % 2 ^ 32

-- `cmp::min(buf.len() as u32, READ_LIMIT)`, in `read` and `write`
unfoldable pub transfer_len : ℕ → ℕ
transfer_len len = min (len % 2 ^ 32) read_limit
