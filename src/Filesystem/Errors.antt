-- ===== src/Filesystem/Errors.antt =====
-- The error codes of crates/wasmlet/src/engine/wasi/filesystem/mod.rs, on unix.
use wasmx.Base.{ℕ, Option, none, some}

-- The `RustixErrno`s that `from_raw_os_error` names, and the others by number. `NOTSUP` is `OPNOTSUPP`.
pub data Errno : Type 0 where
  pipe perm noent nomem io badf busy access notdir isdir inval exist fbig nospc spipe mlink : Errno
  nametoolong notempty loop overflow ilseq notsup already inprogress intr : Errno
  other : ℕ → Errno

-- `std::io::ErrorKind`
pub data ErrorKind : Type 0 where
  not_found permission_denied already_exists invalid_input : ErrorKind
  other : ℕ → ErrorKind

-- `std::io::Error`: `raw_os_error` and `kind`
pub record IoError : Type 0 where
  pub errno : Option Errno
  pub kind : ErrorKind

-- `wasi:filesystem/types.error-code`, as far as the code gives them
pub data ErrorCode : Type 0 where
  access already bad_descriptor busy exist file_too_large illegal_byte_sequence in_progress :
      ErrorCode
  interrupted invalid io is_directory loop too_many_links name_too_long no_entry : ErrorCode
  insufficient_memory insufficient_space not_directory not_empty unsupported overflow : ErrorCode
  not_permitted pipe invalid_seek : ErrorCode

-- `from_raw_os_error`
unfoldable pub from_errno : Errno → Option ErrorCode
from_errno Errno.pipe = some ErrorCode.pipe
from_errno Errno.perm = some ErrorCode.not_permitted
from_errno Errno.noent = some ErrorCode.no_entry
from_errno Errno.nomem = some ErrorCode.insufficient_memory
from_errno Errno.io = some ErrorCode.io
from_errno Errno.badf = some ErrorCode.bad_descriptor
from_errno Errno.busy = some ErrorCode.busy
from_errno Errno.access = some ErrorCode.access
from_errno Errno.notdir = some ErrorCode.not_directory
from_errno Errno.isdir = some ErrorCode.is_directory
from_errno Errno.inval = some ErrorCode.invalid
from_errno Errno.exist = some ErrorCode.exist
from_errno Errno.fbig = some ErrorCode.file_too_large
from_errno Errno.nospc = some ErrorCode.insufficient_space
from_errno Errno.spipe = some ErrorCode.invalid_seek
from_errno Errno.mlink = some ErrorCode.too_many_links
from_errno Errno.nametoolong = some ErrorCode.name_too_long
from_errno Errno.notempty = some ErrorCode.not_empty
from_errno Errno.loop = some ErrorCode.loop
from_errno Errno.overflow = some ErrorCode.overflow
from_errno Errno.ilseq = some ErrorCode.illegal_byte_sequence
from_errno Errno.notsup = some ErrorCode.unsupported
from_errno Errno.already = some ErrorCode.already
from_errno Errno.inprogress = some ErrorCode.in_progress
from_errno Errno.intr = some ErrorCode.interrupted
from_errno (Errno.other n) = none

-- the `match` on `err.kind()`
unfoldable pub from_kind : ErrorKind → ErrorCode
from_kind ErrorKind.not_found = ErrorCode.no_entry
from_kind ErrorKind.permission_denied = ErrorCode.not_permitted
from_kind ErrorKind.already_exists = ErrorCode.exist
from_kind ErrorKind.invalid_input = ErrorCode.invalid
from_kind (ErrorKind.other n) = ErrorCode.io

-- `From<&std::io::Error> for ErrorCode`
unfoldable pub from_io_error : IoError → ErrorCode
from_io_error e = elim e.errno [
  | none ↦ from_kind e.kind
  | some n ↦ elim (from_errno n) [ none ↦ from_kind e.kind | some c ↦ c ]
]
