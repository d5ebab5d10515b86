-- ===== src/Filesystem.antt =====
-- crates/wasmlet/src/engine/wasi/filesystem/mod.rs: descriptors, their permissions, and what the calls on
-- them ask of cap-std. The `todo!()`s that a call can reach are panics here.
pub mod Errors
pub mod Times
pub mod Methods
pub mod Open
pub mod Sessions
pub mod Calls
pub mod Inherit
pub mod ReadOnly
pub mod Admission
pub mod Reports
use wasmx.Base.{ℕ, Bool, true, false, Option, none, some, Result, ok, err, ⊤, if◌then◌else◌}
use wasmx.Io.{Handle}
use wasmx.Filesystem.Errors.{IoError, ErrorCode, from_io_error}

pub record FilePerms : Type 0 where
  pub read : Bool
  pub write : Bool

pub record OpenMode : Type 0 where
  pub read : Bool
  pub write : Bool

pub record DirPerms : Type 0 where
  pub read : Bool
  pub mutate : Bool

-- `PathFlags`, `OpenFlags` and `DescriptorFlags` of `wasi:filesystem/types`
pub record PathFlags : Type 0 where
  pub symlink_follow : Bool

pub record OpenFlags : Type 0 where
  pub create : Bool
  pub directory : Bool
  pub exclusive : Bool
  pub truncate : Bool

pub record DescriptorFlags : Type 0 where
  pub read : Bool
  pub write : Bool
  pub file_integrity_sync : Bool
  pub data_integrity_sync : Bool
  pub requested_write_sync : Bool
  pub mutate_directory : Bool

-- `system_interface::fs::FdFlags`, as far as it is read
pub record FdFlags : Type 0 where
  pub dsync : Bool
  pub rsync : Bool
  pub sync : Bool

-- `cap_std::fs::OpenOptions`; `follow` is `FollowSymlinks::Yes`
pub record OpenOptions : Type 0 where
  pub maybe_dir : Bool
  pub read : Bool
  pub write : Bool
  pub truncate : Bool
  pub create : Bool
  pub create_new : Bool
  pub follow : Bool

pub data Advice : Type 0 where
  normal sequential random will_need dont_need no_reuse : Advice

-- the tests of `cap_std::fs::FileType`
pub record FileType : Type 0 where
  pub is_dir : Bool
  pub is_symlink : Bool
  pub is_block_device : Bool
  pub is_char_device : Bool
  pub is_file : Bool

pub data DescriptorType : Type 0 where
  unknown block_device character_device directory symbolic_link regular_file : DescriptorType

-- `cap_std::fs::Metadata`; a time that cannot be read is left out
pub record Metadata : Type 0 where
  pub file_type : FileType
  pub nlink : ℕ
  pub len : ℕ
  pub accessed : Bool
  pub modified : Bool
  pub created : Bool
  pub dev : ℕ
  pub ino : ℕ

-- `From<cap_std::fs::FileType> for DescriptorType`
unfoldable pub descriptor_type : FileType → DescriptorType
descriptor_type ft =
    if ft.is_dir
    then directory
    else if ft.is_symlink
    then symbolic_link
    else if ft.is_block_device
    then block_device
    else if ft.is_char_device
    then character_device
    else if ft.is_file
    then regular_file
    else unknown

-- `std::time::SystemTime`: seconds and nanoseconds since the epoch
pub record SystemTime : Type 0 where
  pub seconds : ℕ
  pub nanoseconds : ℕ

pub data SystemTimeSpec : Type 0 where
  symbolic_now : SystemTimeSpec
  absolute : SystemTime → SystemTimeSpec

-- How a call ends.
pub data Outcome (A E : Type 0) : Type 0 where
  done : A → Outcome A E
  fails : E → Outcome A E
  panics : Outcome A E

-- A call over the world `W`, which gives back what it leaves of it.
abbrev pub M : Type 0 → Type 0 → Type 0 → Type 0
M W E A = W → Outcome A E × W

abbrev pub after : {W E A B : Type 0} → Outcome A E × W → (A → M W E B) → Outcome B E × W
after (done a, w) k = k a w
after (fails e, w) k = (fails e, w)
after (panics, w) k = (panics, w)

infixl 5 ◌>>=◌ ◌>>◌
abbrev pub ◌>>=◌ : {W E A B : Type 0} → M W E A → (A → M W E B) → M W E B
◌>>=◌ m k w = after (m w) k

abbrev pub ◌>>◌ : {W E B : Type 0} → M W E ⊤ → M W E B → M W E B
◌>>◌ m k w = after (m w) (λ u. k)

abbrev pub pure : {W E A : Type 0} → A → M W E A
pure a w = (done a, w)

abbrev pub fail : {W E A : Type 0} → E → M W E A
fail e w = (fails e, w)

-- `if !allowed { return Err(e) }`
abbrev pub guard : {W E : Type 0} → Bool → E → M W E ⊤
guard true e w = (done tt, w)
guard false e w = (fails e, w)

-- What is called of cap-std, `system_interface`, `fs_set_times` and the hasher of the standard library.
pub record Os : Type 1 where
  pub World : Type 0
  pub FilePath : Type 0
  pub file_metadata : Handle → World → Result Metadata IoError × World
  pub dir_metadata : Handle → World → Result Metadata IoError × World
  pub advise : Handle → ℕ → ℕ → Advice → World → Result ⊤ IoError × World
  pub sync_data : Handle → World → Result ⊤ IoError × World
  pub sync_all : Handle → World → Result ⊤ IoError × World
  -- `Dir::open` of `Component::CurDir`
  pub open_current : Handle → World → Result Handle IoError × World
  pub get_fd_flags : Handle → World → Result FdFlags IoError × World
  pub set_len : Handle → ℕ → World → Result ⊤ IoError × World
  pub set_times :
      Handle → Option SystemTimeSpec → Option SystemTimeSpec → World → Result ⊤ IoError × World
  pub set_times_at :
      Handle
      → FilePath
      → Option SystemTimeSpec
      → Option SystemTimeSpec
      → World
      → Result ⊤ IoError × World
  pub set_symlink_times :
      Handle
      → FilePath
      → Option SystemTimeSpec
      → Option SystemTimeSpec
      → World
      → Result ⊤ IoError × World
  pub metadata : Handle → FilePath → World → Result Metadata IoError × World
  pub symlink_metadata : Handle → FilePath → World → Result Metadata IoError × World
  pub create_dir : Handle → FilePath → World → Result ⊤ IoError × World
  pub hard_link : Handle → FilePath → Handle → FilePath → World → Result ⊤ IoError × World
  pub open_with : Handle → FilePath → OpenOptions → World → Result Handle IoError × World
  -- `new_set_fd_flags` and `set_fd_flags` of `NONBLOCK`
  pub set_nonblock : Handle → World → Result ⊤ IoError × World
  -- `none` is a link that is not UTF-8
  pub read_link : Handle → FilePath → World → Result (Option FilePath) IoError × World
  pub remove_dir : Handle → FilePath → World → Result ⊤ IoError × World
  pub rename : Handle → FilePath → Handle → FilePath → World → Result ⊤ IoError × World
  pub symlink : Handle → FilePath → FilePath → World → Result ⊤ IoError × World
  pub remove_file_or_symlink : Handle → FilePath → World → Result ⊤ IoError × World
  -- `DefaultHasher` of a device and an inode
  pub hash : ℕ → ℕ → ℕ

pub record File : Type 0 where
  pub file : Handle
  pub perms : FilePerms
  pub open_mode : OpenMode
  pub allow_blocking_current_thread : Bool

pub record Dir : Type 0 where
  pub dir : Handle
  pub perms : DirPerms
  pub file_perms : FilePerms
  pub open_mode : OpenMode
  pub allow_blocking_current_thread : Bool

pub data Descriptor : Type 0 where
  file : File → Descriptor
  dir : Dir → Descriptor

-- The `?` on a `std::io::Result`, and on a result of the code's own.
abbrev pub io : {W A : Type 0} → Result A IoError × W → Outcome A ErrorCode × W
io (ok a, w) = (done a, w)
io (err e, w) = (fails (from_io_error e), w)

abbrev pub lift : {W A : Type 0} → Result A ErrorCode → M W ErrorCode A
lift (ok a) w = (done a, w)
lift (err e) w = (fails e, w)

-- `Descriptor::file` and `Descriptor::dir`
abbrev pub as_file : Descriptor → Result File ErrorCode
as_file (file f) = ok f
as_file (dir d) = err ErrorCode.bad_descriptor

abbrev pub as_dir : Descriptor → Result Dir ErrorCode
as_dir (dir d) = ok d
as_dir (file f) = err ErrorCode.not_directory
