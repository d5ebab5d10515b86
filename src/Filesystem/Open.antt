-- ===== src/Filesystem/Open.antt =====
-- `Descriptor::open_at` of filesystem/mod.rs, and `WasiFilesystemCtx::preopened_dir`, which makes the first
-- directories.
use wasmx.Base.{Bool, true, false, not, ◌&&◌, ◌||◌, Result, ok, err, ⊤, if◌then◌else◌}
use wasmx.Io.{Handle}
use wasmx.Filesystem.{
  Os, M, ◌>>=◌, ◌>>◌, pure, lift, as_dir, Dir, Descriptor, FilePerms, DirPerms, OpenMode, PathFlags,
  OpenFlags, DescriptorFlags, OpenOptions,
}
use wasmx.Filesystem.Errors.{ErrorCode, IoError}
use wasmx.Filesystem.Methods.{Call, run_dir}

-- The checks of a call, in the order of the code: those before the options are made, and those after.
unfoldable pub check_flags : Dir → OpenFlags → DescriptorFlags → Result ⊤ ErrorCode
check_flags d oflags flags =
    if not d.perms.read
    then err ErrorCode.not_permitted
    else if not d.perms.mutate && (oflags.create || oflags.truncate)
    then err ErrorCode.not_permitted
    else if not d.perms.mutate && flags.write
    then err ErrorCode.not_permitted
    else ok tt

unfoldable pub check_options : Dir → OpenFlags → DescriptorFlags → OpenMode → Result ⊤ ErrorCode
check_options d oflags flags mode =
    if flags.file_integrity_sync || flags.data_integrity_sync || flags.requested_write_sync
    then err ErrorCode.unsupported
    else if oflags.directory && (oflags.create || oflags.exclusive || oflags.truncate)
    then err ErrorCode.invalid
    else if not d.perms.mutate && oflags.create
    then err ErrorCode.not_permitted
    else if not d.file_perms.write && mode.write
    then err ErrorCode.not_permitted
    else ok tt

-- `cap_std::fs::OpenOptions::new`, with `maybe_dir`, and `OpenMode::empty`
abbrev pub no_options : OpenOptions × OpenMode
no_options = (
  record {
    maybe_dir = true;
    read = false;
    write = false;
    truncate = false;
    create = false;
    create_new = false;
    follow = true;
  },
  record { read = false; write = false },
)

-- one `if` each
unfoldable pub with_create : OpenFlags → OpenOptions × OpenMode → OpenOptions × OpenMode
with_create oflags (opts, mode) =
    if oflags.create
    then (
      record opts {
        create = if oflags.exclusive then opts.create else true;
        create_new = if oflags.exclusive then true else opts.create_new;
        write = true;
      },
      record mode { write = true },
    )
    else (opts, mode)

unfoldable pub with_truncate : OpenFlags → OpenOptions × OpenMode → OpenOptions × OpenMode
with_truncate oflags (opts, mode) =
    if oflags.truncate then (record opts { truncate = true; write = true }, mode) else (opts, mode)

unfoldable pub with_read : Bool → OpenOptions × OpenMode → OpenOptions × OpenMode
with_read wanted (opts, mode) =
    if wanted then (record opts { read = true }, record mode { read = true }) else (opts, mode)

-- what is not opened for writing is opened for reading
unfoldable pub with_write : DescriptorFlags → OpenOptions × OpenMode → OpenOptions × OpenMode
with_write flags (opts, mode) =
    if flags.write
    then (record opts { write = true }, record mode { write = true })
    else (record opts { read = true }, record mode { read = true })

unfoldable pub open_options : PathFlags → OpenFlags → DescriptorFlags → OpenOptions × OpenMode
unfolding with_create with_truncate with_read with_write
open_options path_flags oflags flags =
    let (opts, mode) =
      with_write flags
        (with_read flags.read (with_truncate oflags (with_create oflags no_options))) in
    (record opts { follow = path_flags.symlink_follow }, mode)

-- `OpenResult`
pub data OpenResult : Type 0 where
  dir file : Handle → OpenResult
  not_dir : OpenResult

-- the `match` on it
unfoldable pub descriptor_of :
    {W : Type 0} → Dir → OpenMode → Bool → OpenResult → M W ErrorCode Descriptor
descriptor_of d mode allow (dir h) = pure (
    Descriptor.dir (record {
      dir = h;
      perms = d.perms;
      file_perms = d.file_perms;
      open_mode = mode;
      allow_blocking_current_thread = allow;
    }))
descriptor_of d mode allow (file h) = pure (
    Descriptor.file (record {
      file = h;
      perms = d.file_perms;
      open_mode = mode;
      allow_blocking_current_thread = allow;
    }))
descriptor_of d mode allow not_dir = lift (err ErrorCode.not_directory)

module _ (os : Os) where
  open os use {World, FilePath}

  -- the body that is run: after `opened.metadata()`, and as a whole
  unfoldable pub opened_as : Bool → Handle → Bool → World → Result OpenResult IoError × World
  opened_as directory h is_dir w =
      if is_dir
      then (ok (dir h), w)
      else if directory
      then (ok not_dir, w)
      else (let (r, w') = os.set_nonblock h w in
          elim r [ ok u ↦ (ok (file h), w') | err e ↦ (err e, w') ])

  unfoldable pub open_body :
      FilePath → OpenOptions → Bool → Handle → World → Result OpenResult IoError × World
  unfolding opened_as
  open_body path opts directory h w =
      let (r, w') = os.open_with h path opts w in
      elim r [
        | err e ↦ (err e, w')
        | ok c ↦
            (let (m, w'') = os.file_metadata c w' in
              elim m [
                | err e ↦ (err e, w'')
                | ok meta ↦ opened_as directory c meta.file_type.is_dir w''
              ])
      ]

  unfoldable pub open_at :
      Descriptor → PathFlags → FilePath → OpenFlags → DescriptorFlags → Bool → Call os Descriptor
  unfolding open_body descriptor_of check_flags check_options open_options
  open_at s path_flags path oflags flags allow = do
    d ← lift (as_dir s)
    lift (check_flags d oflags flags)
    let t = open_options path_flags oflags flags
    lift (check_options d oflags flags t.1)
    opened ← run_dir os d (open_body path t.0 oflags.directory)
    descriptor_of d t.1 allow opened

-- `preopened_dir`, once the directory `h` of the host is open
unfoldable pub preopened_dir : Handle → DirPerms → FilePerms → Bool → Dir
preopened_dir h dir_perms file_perms allow = record {
  dir = h;
  perms = dir_perms;
  file_perms = file_perms;
  open_mode = record { read = dir_perms.read; write = dir_perms.mutate };
  allow_blocking_current_thread = allow;
}
