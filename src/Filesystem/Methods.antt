-- ===== src/Filesystem/Methods.antt =====
-- The methods of `Descriptor` in filesystem/mod.rs, but `open_at`.
use wasmx.Base.{
  ℕ, Bool, true, false, ◌&&◌, ◌||◌, Option, none, some, Result, ok, err, ⊤, ◌==◌, if◌then◌else◌,
}
use Prim.Native.Nat.{bit_xor}
use wasmx.Io.{Handle}
use wasmx.Filesystem.{
  Os, M, done, panics, ◌>>=◌, ◌>>◌, pure, guard, lift, io, as_file, as_dir, File, Dir, Descriptor,
  PathFlags, DescriptorFlags, FdFlags, Advice, Metadata, DescriptorType, directory, descriptor_type,
  SystemTimeSpec,
}
use wasmx.Filesystem.Errors.{ErrorCode, IoError}
use wasmx.Filesystem.Times.{NewTimestamp, systemtimespec_from}

-- `DescriptorStat`; no time is in it, since `datetime_from` is not there yet
pub record DescriptorStat : Type 0 where
  pub type_ : DescriptorType
  pub link_count : ℕ
  pub size : ℕ

pub record MetadataHashValue : Type 0 where
  pub lower : ℕ
  pub upper : ℕ

-- `From<&Metadata> for MetadataHashValue`
unfoldable pub metadata_hash_value : (ℕ → ℕ → ℕ) → Metadata → MetadataHashValue
metadata_hash_value hash meta =
    let lower = hash meta.dev meta.ino in
    record { lower = lower; upper = bit_xor lower 4614256656552045848 }

-- `From<Metadata> for DescriptorStat`: a time that can be read meets the `todo!()` of `datetime_from`.
unfoldable pub descriptor_stat : {W : Type 0} → Metadata → M W ErrorCode DescriptorStat
descriptor_stat meta w = if meta.accessed || meta.modified || meta.created then (panics, w) else (
  done
      (record { type_ = descriptor_type meta.file_type; link_count = meta.nlink; size = meta.len }),
  w,
)

-- `get_from_fdflags`
unfoldable pub get_from_fdflags : FdFlags → DescriptorFlags
get_from_fdflags flags = record {
  read = false;
  write = false;
  file_integrity_sync = flags.sync;
  data_integrity_sync = flags.rsync;
  requested_write_sync = flags.dsync;
  mutate_directory = false;
}

module _ (os : Os) where
  open os use {World, FilePath}

  -- A call whose error is an `ErrorCode`.
  abbrev pub Call : Type 0 → Type 0
  Call A = M World ErrorCode A

  -- `File::run_blocking`, `spawn_blocking` and `as_blocking_file`: a body that may not block the thread is
  -- spawned, and the poll of its `AbortOnDropJoinHandle` panics.
  unfoldable pub run_file :
      {A : Type 0} → File → (Handle → World → Result A IoError × World) → Call A
  run_file f body w =
      if f.allow_blocking_current_thread then io (body f.file w) else (panics, (body f.file w).1)

  -- `Dir::run_blocking`
  abbrev pub run_dir : {A : Type 0} → Dir → (Handle → World → Result A IoError × World) → Call A
  run_dir d body w = io (body d.dir w)

  -- a time that the guest gives
  abbrev pub times : NewTimestamp → Call (Option SystemTimeSpec)
  times t w = (systemtimespec_from t, w)

  -- the `body` of `sync` and `sync_data` on a directory
  unfoldable pub sync_current :
      (Handle → World → Result ⊤ IoError × World) → Handle → World → Result ⊤ IoError × World
  sync_current sync h w =
      let (r, w') = os.open_current h w in elim r [ ok c ↦ sync c w' | err e ↦ (err e, w') ]

  unfoldable pub get_metadata : Descriptor → Call Metadata
  unfolding run_file
  get_metadata (Descriptor.file f) = run_file f os.file_metadata
  get_metadata (Descriptor.dir d) = run_dir d os.dir_metadata

  unfoldable pub advise : Descriptor → ℕ → ℕ → Advice → Call ⊤
  unfolding run_file
  advise s offset len advice = do
    f ← lift (as_file s)
    run_file f (λ h. os.advise h offset len advice)

  unfoldable pub sync_data : Descriptor → Call ⊤
  unfolding run_file sync_current
  sync_data (Descriptor.file f) = run_file f os.sync_data
  sync_data (Descriptor.dir d) = run_dir d (sync_current os.sync_data)

  unfoldable pub sync : Descriptor → Call ⊤
  unfolding run_file sync_current
  sync (Descriptor.file f) = run_file f os.sync_all
  sync (Descriptor.dir d) = run_dir d (sync_current os.sync_all)

  unfoldable pub get_flags : Descriptor → Call DescriptorFlags
  unfolding run_file get_from_fdflags
  get_flags (Descriptor.file f) = do
    flags ← run_file f os.get_fd_flags
    pure (record (get_from_fdflags flags) { read = f.open_mode.read; write = f.open_mode.write })
  get_flags (Descriptor.dir d) = do
    flags ← run_dir d os.get_fd_flags
    pure (record (get_from_fdflags flags) {
      read = d.open_mode.read;
      mutate_directory = d.open_mode.write;
    })

  unfoldable pub get_type : Descriptor → Call DescriptorType
  unfolding run_file
  get_type (Descriptor.file f) = do
    meta ← run_file f os.file_metadata
    pure (descriptor_type meta.file_type)
  get_type (Descriptor.dir d) = pure directory

  unfoldable pub set_size : Descriptor → ℕ → Call ⊤
  unfolding run_file
  set_size s size = do
    f ← lift (as_file s)
    guard f.perms.write ErrorCode.not_permitted
    run_file f (λ h. os.set_len h size)

  unfoldable pub set_times : Descriptor → NewTimestamp → NewTimestamp → Call ⊤
  unfolding run_file
  set_times (Descriptor.file f) atim mtim = do
    guard f.perms.write ErrorCode.not_permitted
    a ← times atim
    m ← times mtim
    run_file f (λ h. os.set_times h a m)
  set_times (Descriptor.dir d) atim mtim = do
    guard d.perms.mutate ErrorCode.not_permitted
    a ← times atim
    m ← times mtim
    run_dir d (λ h. os.set_times h a m)

  unfoldable pub create_directory_at : Descriptor → FilePath → Call ⊤
  create_directory_at s path = do
    d ← lift (as_dir s)
    guard d.perms.mutate ErrorCode.not_permitted
    run_dir d (λ h. os.create_dir h path)

  unfoldable pub stat : Descriptor → Call DescriptorStat
  unfolding run_file descriptor_stat
  stat (Descriptor.file f) = do meta ← run_file f os.file_metadata; descriptor_stat meta
  stat (Descriptor.dir d) = do meta ← run_dir d os.dir_metadata; descriptor_stat meta

  -- the metadata at a path, through a link or of it
  abbrev pub look_up : PathFlags → FilePath → Handle → World → Result Metadata IoError × World
  look_up flags path h w =
      if flags.symlink_follow then os.metadata h path w else os.symlink_metadata h path w

  unfoldable pub stat_at : Descriptor → PathFlags → FilePath → Call DescriptorStat
  unfolding descriptor_stat
  stat_at s flags path = do
    d ← lift (as_dir s)
    guard d.perms.read ErrorCode.not_permitted
    meta ← run_dir d (look_up flags path)
    descriptor_stat meta

  unfoldable pub set_times_at :
      Descriptor → PathFlags → FilePath → NewTimestamp → NewTimestamp → Call ⊤
  set_times_at s flags path atim mtim = do
    d ← lift (as_dir s)
    guard d.perms.mutate ErrorCode.not_permitted
    a ← times atim
    m ← times mtim
    run_dir d (λ h w.
        if flags.symlink_follow
        then os.set_times_at h path a m w
        else os.set_symlink_times h path a m w)

  unfoldable pub link_at : Descriptor → PathFlags → FilePath → Descriptor → FilePath → Call ⊤
  link_at s flags old_path new new_path = do
    old_dir ← lift (as_dir s)
    guard old_dir.perms.mutate ErrorCode.not_permitted
    new_dir ← lift (as_dir new)
    guard new_dir.perms.mutate ErrorCode.not_permitted
    guard (if flags.symlink_follow then false else true) ErrorCode.invalid
    run_dir old_dir (λ h. os.hard_link h old_path new_dir.dir new_path)

  unfoldable pub readlink_at : Descriptor → FilePath → Call FilePath
  readlink_at s path = do
    d ← lift (as_dir s)
    guard d.perms.read ErrorCode.not_permitted
    link ← run_dir d (λ h. os.read_link h path)
    lift (elim link [ none ↦ err ErrorCode.illegal_byte_sequence | some p ↦ ok p ])

  unfoldable pub remove_directory_at : Descriptor → FilePath → Call ⊤
  remove_directory_at s path = do
    d ← lift (as_dir s)
    guard d.perms.mutate ErrorCode.not_permitted
    run_dir d (λ h. os.remove_dir h path)

  unfoldable pub rename_at : Descriptor → FilePath → Descriptor → FilePath → Call ⊤
  rename_at s old_path new new_path = do
    old_dir ← lift (as_dir s)
    guard old_dir.perms.mutate ErrorCode.not_permitted
    new_dir ← lift (as_dir new)
    guard new_dir.perms.mutate ErrorCode.not_permitted
    run_dir old_dir (λ h. os.rename h old_path new_dir.dir new_path)

  unfoldable pub symlink_at : Descriptor → FilePath → FilePath → Call ⊤
  symlink_at s src dest = do
    d ← lift (as_dir s)
    guard d.perms.mutate ErrorCode.not_permitted
    run_dir d (λ h. os.symlink h src dest)

  unfoldable pub unlink_file_at : Descriptor → FilePath → Call ⊤
  unlink_file_at s path = do
    d ← lift (as_dir s)
    guard d.perms.mutate ErrorCode.not_permitted
    run_dir d (λ h. os.remove_file_or_symlink h path)

  -- A failure is one of the host's; the `debug_assert`s of a debug build are left out.
  unfoldable pub is_same_object : Descriptor → Descriptor → Call Bool
  unfolding get_metadata
  is_same_object s other = do
    a ← get_metadata s
    b ← get_metadata other
    pure ((a.dev == b.dev) && (a.ino == b.ino))

  unfoldable pub metadata_hash : Descriptor → Call MetadataHashValue
  unfolding get_metadata metadata_hash_value
  metadata_hash s = do meta ← get_metadata s; pure (metadata_hash_value os.hash meta)

  unfoldable pub metadata_hash_at : Descriptor → PathFlags → FilePath → Call MetadataHashValue
  unfolding metadata_hash_value
  metadata_hash_at s flags path = do
    d ← lift (as_dir s)
    meta ← run_dir d (look_up flags path)
    pure (metadata_hash_value os.hash meta)
