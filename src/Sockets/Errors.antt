-- ===== src/Sockets/Errors.antt =====
-- crates/wasmlet/src/engine/wasi/sockets/util.rs, the conversions into `network::ErrorCode`. The
-- error types of `std::io` and `rustix` are kept to what those conversions look at.
use wasmx.Base.{ℕ, ◌≡◌, refl, Bool, true, false, Option, none, some, arith}

-- `wasi:sockets/network.error-code`
pub data ErrorCode : Type 0 where
  unknown access_denied not_supported invalid_argument out_of_memory timeout : ErrorCode
  concurrency_conflict not_in_progress would_block invalid_state new_socket_limit : ErrorCode
  address_not_bindable address_in_use remote_unreachable connection_refused : ErrorCode
  connection_reset connection_aborted datagram_too_large name_unresolvable : ErrorCode
  temporary_resolver_failure permanent_resolver_failure : ErrorCode

-- `rustix::io::Errno`: the constants that the program names, and the others by number.
pub data Errno : Type 0 where
  perm acces addrinuse addrnotavail timedout connrefused connreset connaborted inval : Errno
  hostunreach hostdown netdown netunreach nonet isconn notconn destaddrreq msgsize : Errno
  nomem nobufs opnotsupp noprotoopt pfnosupport protonosupport prototype socktnosupport : Errno
  afnosupport netreset proto inprogress again : Errno
  other : ℕ → Errno

-- `std::io::ErrorKind`: the kinds that the program names, and the others by number.
pub data ErrorKind : Type 0 where
  addr_in_use addr_not_available connection_aborted connection_refused : ErrorKind
  connection_reset invalid_input not_connected out_of_memory permission_denied : ErrorKind
  timed_out unsupported would_block : ErrorKind
  other : ℕ → ErrorKind

-- `std::io::Error`, through `Errno::from_io_error` and `kind`.
pub record IoError : Type 0 where
  pub errno : Option Errno
  pub kind : ErrorKind

-- `impl From<&Errno> for network::ErrorCode`, on Linux
unfoldable pub from_errno : Errno → ErrorCode
from_errno Errno.perm = ErrorCode.access_denied
from_errno Errno.acces = ErrorCode.access_denied
from_errno Errno.addrinuse = ErrorCode.address_in_use
from_errno Errno.addrnotavail = ErrorCode.address_not_bindable
from_errno Errno.timedout = ErrorCode.timeout
from_errno Errno.connrefused = ErrorCode.connection_refused
from_errno Errno.connreset = ErrorCode.connection_reset
from_errno Errno.connaborted = ErrorCode.connection_aborted
from_errno Errno.inval = ErrorCode.invalid_argument
from_errno Errno.hostunreach = ErrorCode.remote_unreachable
from_errno Errno.hostdown = ErrorCode.remote_unreachable
from_errno Errno.netdown = ErrorCode.remote_unreachable
from_errno Errno.netunreach = ErrorCode.remote_unreachable
from_errno Errno.nonet = ErrorCode.remote_unreachable
from_errno Errno.isconn = ErrorCode.invalid_state
from_errno Errno.notconn = ErrorCode.invalid_state
from_errno Errno.destaddrreq = ErrorCode.invalid_state
from_errno Errno.msgsize = ErrorCode.datagram_too_large
from_errno Errno.nomem = ErrorCode.out_of_memory
from_errno Errno.nobufs = ErrorCode.out_of_memory
from_errno Errno.opnotsupp = ErrorCode.not_supported
from_errno Errno.noprotoopt = ErrorCode.not_supported
from_errno Errno.pfnosupport = ErrorCode.not_supported
from_errno Errno.protonosupport = ErrorCode.not_supported
from_errno Errno.prototype = ErrorCode.not_supported
from_errno Errno.socktnosupport = ErrorCode.not_supported
from_errno Errno.afnosupport = ErrorCode.not_supported
from_errno _ = ErrorCode.unknown

-- The `match value.kind()` of `impl From<&std::io::Error> for network::ErrorCode`
unfoldable pub from_kind : ErrorKind → ErrorCode
from_kind ErrorKind.addr_in_use = ErrorCode.address_in_use
from_kind ErrorKind.addr_not_available = ErrorCode.address_not_bindable
from_kind ErrorKind.connection_aborted = ErrorCode.connection_aborted
from_kind ErrorKind.connection_refused = ErrorCode.connection_refused
from_kind ErrorKind.connection_reset = ErrorCode.connection_reset
from_kind ErrorKind.invalid_input = ErrorCode.invalid_argument
from_kind ErrorKind.not_connected = ErrorCode.invalid_state
from_kind ErrorKind.out_of_memory = ErrorCode.out_of_memory
from_kind ErrorKind.permission_denied = ErrorCode.access_denied
from_kind ErrorKind.timed_out = ErrorCode.timeout
from_kind ErrorKind.unsupported = ErrorCode.not_supported
from_kind _ = ErrorCode.unknown

-- `impl From<&std::io::Error> for network::ErrorCode`: the native code first, else the kind.
unfoldable pub from_io_error : IoError → ErrorCode
from_io_error e = elim e.errno [ some n ↦ from_errno n | none ↦ from_kind e.kind ]

-- The codes by which the host itself tells the guest where an operation stands.
abbrev pub is_progress : ErrorCode → Bool
is_progress ErrorCode.would_block = true
is_progress ErrorCode.not_in_progress = true
is_progress ErrorCode.concurrency_conflict = true
is_progress _ = false

is_progress-from_errno : (n : Errno) → is_progress (from_errno n) ≡ false
unfolding from_errno
is_progress-from_errno Errno.perm = refl
is_progress-from_errno _ = refl

is_progress-from_kind : (k : ErrorKind) → is_progress (from_kind k) ≡ false
unfolding from_kind
is_progress-from_kind ErrorKind.addr_in_use = refl
is_progress-from_kind _ = refl

-- No error of the operating system, whatever its number and kind, reaches the guest as
-- `would-block`, `not-in-progress` or `concurrency-conflict`.
pub is_progress-from_io_error : (e : IoError) → is_progress (from_io_error e) ≡ false
unfolding from_io_error
is_progress-from_io_error e = ground (arith, is_progress-from_kind e.kind, of_errno e.errno)
  where
    of_errno :
        (o : Option Errno)
        → is_progress (elim o [ some n ↦ from_errno n | none ↦ from_kind e.kind ]) ≡ false
    of_errno none = is_progress-from_kind e.kind
    of_errno (some n) = is_progress-from_errno n
