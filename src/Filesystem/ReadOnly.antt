-- ===== src/Filesystem/ReadOnly.antt =====
-- What the calls of filesystem/mod.rs leave of the files, where the permissions are to read only.
pub mod Keeping
use wasmx.Base.{
  ◌≡◌, refl, ◌∙◌, sym, ap, Bool, true, false, ⊤, ok, err, inl, inr, arith, Bool-cases,
  if◌then◌else◌, Option, none, some, Result, Result-cases,
}
use wasmx.Io.{Handle}
use wasmx.Filesystem.{
  Os, M, Outcome, done, fails, panics, after, lift, io, guard, pure, as_dir, as_file, File, Dir,
  Descriptor, PathFlags, OpenFlags, DescriptorFlags, Metadata, OpenMode, OpenOptions,
}
use wasmx.Filesystem.Errors.{ErrorCode, IoError}
use wasmx.Filesystem.Methods.{
  run_dir, run_file, look_up, times, descriptor_stat, get_metadata, sync_current, advise, sync_data,
  sync, get_flags, get_type, set_size, set_times, create_directory_at, stat, stat_at, set_times_at,
  link_at, readlink_at, remove_directory_at, rename_at, symlink_at, unlink_file_at, is_same_object,
  metadata_hash, metadata_hash_at,
}
use wasmx.Filesystem.Times.{NewTimestamp, systemtimespec_from}
use wasmx.Filesystem.Open.{
  open_at, check_flags, check_options, open_options, open_body, opened_as, descriptor_of,
  OpenResult,
}
use wasmx.Filesystem.Sessions.{Request, serve, Derived, Session, start, call}
use wasmx.Filesystem.Inherit.{IsWithin, DirWithin, FileWithin, Derived-IsWithin}
use wasmx.Filesystem.ReadOnly.Keeping
use wasmx.Filesystem.ReadOnly.Keeping.{Reads}

-- No permission to write.
abbrev pub IsReadOnly : Descriptor → Type 0
IsReadOnly (Descriptor.file f) = f.perms.write ≡ false
IsReadOnly (Descriptor.dir d) = (d.perms.mutate ≡ false) × (d.file_perms.write ≡ false)

IsWithin-IsReadOnly :
    (d : Dir) (s : Descriptor)
    → IsWithin d s
    → d.perms.mutate ≡ false
    → d.file_perms.write ≡ false
    → IsReadOnly s
IsWithin-IsReadOnly d (Descriptor.file f) h m k = ap (λ p. p.write) h.perms ∙ k
IsWithin-IsReadOnly d (Descriptor.dir e) h m k =
    (ap (λ p. p.mutate) h.perms ∙ m, ap (λ p. p.write) h.file_perms ∙ k)

-- The options of a call that a directory admits, if nothing may be changed in it.
admitted :
    (d : Dir) (f : PathFlags) (o : OpenFlags) (fl : DescriptorFlags)
    → d.perms.mutate ≡ false
    → check_flags d o fl ≡ ok tt
    → let t = (open_options f o fl).0 in
      (t.write ≡ false) × (t.truncate ≡ false) × (t.create ≡ false) × (t.create_new ≡ false)
unfolding check_flags open_options
admitted d f o fl m e = ground arith

module _ (os : Os) (reads : Reads os) where
  abbrev Keeps : {R : Type 0} → (os.World → R × os.World) → Type 0
  Keeps m = Keeping.Keeps os reads m

  get_metadata-Keeps : (s : Descriptor) → Keeps (get_metadata os s)
  unfolding get_metadata
  get_metadata-Keeps (Descriptor.file f) =
      Keeping.run_file-Keeps os reads f os.file_metadata reads.file_metadata
  get_metadata-Keeps (Descriptor.dir d) =
      Keeping.run_dir-Keeps os reads d os.dir_metadata reads.dir_metadata

  descriptor_stat-Keeps : (m : Metadata) → Keeps (descriptor_stat {W = os.World} m)
  unfolding descriptor_stat
  descriptor_stat-Keeps m w = ground arith

  opened_as-Keeps : (b : Bool) (h : Handle) (is_dir : Bool) → Keeps (opened_as os b h is_dir)
  unfolding opened_as
  opened_as-Keeps b h true w = refl
  opened_as-Keeps true h false w = refl
  opened_as-Keeps false h false w = elim (Result-cases (os.set_nonblock h w).0) [
    | inl (c, e) ↦ rw (e, opened_as) (reads.set_nonblock h w)
    | inr (x, e) ↦ rw (e, opened_as) (reads.set_nonblock h w)
  ]

  open_body-Keeps :
      (p : os.FilePath) (t : OpenOptions) (b : Bool)
      → ((h : Handle) → Keeps (os.open_with h p t))
      → (h : Handle) → Keeps (open_body os p t b h)
  unfolding open_body
  open_body-Keeps p t b k h w = elim (Result-cases (os.open_with h p t w).0) [
    | inr (x, e) ↦ rw (e, open_body) (k h w)
    | inl (c, e) ↦
        (let v = (os.open_with h p t w).1 in
          elim (Result-cases (os.file_metadata c v).0) [
            | inr (x, q) ↦ rw (e, open_body, q) (reads.file_metadata c v ∙ k h w)
            | inl (m, q) ↦
                rw (e, open_body, q)
                  (opened_as-Keeps b c m.file_type.is_dir (os.file_metadata c v).1
                    ∙ reads.file_metadata c v
                    ∙ k h w)
          ])
  ]

  descriptor_of-Keeps :
      (d : Dir) (m : OpenMode) (b : Bool) (r : OpenResult)
      → Keeps (descriptor_of {W = os.World} d m b r)
  unfolding descriptor_of
  descriptor_of-Keeps d m b (OpenResult.dir h) w = refl
  descriptor_of-Keeps d m b (OpenResult.file h) w = refl
  descriptor_of-Keeps d m b OpenResult.not_dir w = refl

  open_at-Keeps :
      (d : Dir) (f : PathFlags) (p : os.FilePath) (o : OpenFlags) (fl : DescriptorFlags) (b : Bool)
      → d.perms.mutate ≡ false
      → Keeps (open_at os (Descriptor.dir d) f p o fl b)
  unfolding open_at
  open_at-Keeps d f p o fl b m w = elim (Result-cases (check_flags d o fl)) [
    | inr (x, e) ↦ rw (e, open_at) refl
    | inl (u, e) ↦
        rw (e, open_at)
          (let t = open_options f o fl in
            let (a, b1, c, n) = admitted d f o fl m e in
            Keeping.then-Keeps os reads (lift (check_options d o fl t.1)) _
              (Keeping.lift-Keeps os reads (check_options d o fl t.1))
              (λ v.
                Keeping.then-Keeps os reads (run_dir os d (open_body os p t.0 o.directory))
                  (descriptor_of d t.1 b)
                  (Keeping.run_dir-Keeps os reads d (open_body os p t.0 o.directory)
                    (open_body-Keeps p t.0 o.directory (λ h w. reads.open_with h p t.0 w a b1 c n)))
                  (descriptor_of-Keeps d t.1 b))
              w)
  ]

  file_open-Keeps :
      (x : File) (f : PathFlags) (p : os.FilePath) (o : OpenFlags) (fl : DescriptorFlags) (b : Bool)
      → Keeps (open_at os (Descriptor.file x) f p o fl b)
  unfolding open_at
  file_open-Keeps x f p o fl b w = refl

  changes-Keeps :
      {B : Type 0} (d : Dir) (k : M os.World ErrorCode B)
      → d.perms.mutate ≡ false
      → Keeps (λ w. after (guard {W = os.World} d.perms.mutate ErrorCode.not_permitted w) (λ u. k))
  changes-Keeps d k m = Keeping.guard-Keeps os reads d.perms.mutate ErrorCode.not_permitted k m

  reads_at-Keeps :
      {B : Type 0} (d : Dir) (body : Handle → os.World → Result Metadata IoError × os.World)
      (k : Metadata → M os.World ErrorCode B)
      → ((h : Handle) → Keeps (body h))
      → ((m : Metadata) → Keeps (k m))
      → Keeps (λ w. after (run_dir os d body w) k)
  reads_at-Keeps d body k a b =
      Keeping.then-Keeps os reads (run_dir os d body) k (Keeping.run_dir-Keeps os reads d body a) b

  serve-Keeps :
      (s : Descriptor) (r : Request os)
      → IsReadOnly s
      → (w : os.World) → reads.files (serve os s r w) ≡ reads.files w
  unfolding serve advise sync_data sync get_flags get_type stat metadata_hash set_size set_times
      stat_at metadata_hash_at set_times_at link_at rename_at symlink_at create_directory_at
      readlink_at remove_directory_at unlink_file_at is_same_object
  serve-Keeps (Descriptor.file f) (Request.advise n k a) h w =
      Keeping.run_file-Keeps os reads f (λ c. os.advise c n k a) (λ c. reads.advise c n k a) w
  serve-Keeps (Descriptor.dir d) (Request.advise n k a) h w = refl
  serve-Keeps (Descriptor.file f) Request.sync_data h w =
      Keeping.run_file-Keeps os reads f os.sync_data reads.sync_data w
  serve-Keeps (Descriptor.dir d) Request.sync_data h w =
      Keeping.run_dir-Keeps os reads d (sync_current os os.sync_data)
        (Keeping.sync_current-Keeps os reads os.sync_data reads.sync_data) w
  serve-Keeps (Descriptor.file f) Request.sync h w =
      Keeping.run_file-Keeps os reads f os.sync_all reads.sync_all w
  serve-Keeps (Descriptor.dir d) Request.sync h w =
      Keeping.run_dir-Keeps os reads d (sync_current os os.sync_all)
        (Keeping.sync_current-Keeps os reads os.sync_all reads.sync_all) w
  serve-Keeps (Descriptor.file f) Request.get_flags h w =
      Keeping.then-Keeps os reads (run_file os f os.get_fd_flags) _
        (Keeping.run_file-Keeps os reads f os.get_fd_flags reads.get_fd_flags) (λ a v. refl) w
  serve-Keeps (Descriptor.dir d) Request.get_flags h w =
      Keeping.then-Keeps os reads (run_dir os d os.get_fd_flags) _
        (Keeping.run_dir-Keeps os reads d os.get_fd_flags reads.get_fd_flags) (λ a v. refl) w
  serve-Keeps (Descriptor.file f) Request.get_type h w =
      Keeping.then-Keeps os reads (run_file os f os.file_metadata) _
        (Keeping.run_file-Keeps os reads f os.file_metadata reads.file_metadata) (λ a v. refl) w
  serve-Keeps (Descriptor.dir d) Request.get_type h w = refl
  serve-Keeps (Descriptor.file f) Request.stat h w =
      Keeping.then-Keeps os reads (run_file os f os.file_metadata) _
        (Keeping.run_file-Keeps os reads f os.file_metadata reads.file_metadata)
        descriptor_stat-Keeps w
  serve-Keeps (Descriptor.dir d) Request.stat h w =
      reads_at-Keeps d os.dir_metadata _ reads.dir_metadata descriptor_stat-Keeps w
  serve-Keeps s Request.metadata_hash h w =
      Keeping.then-Keeps os reads (get_metadata os s) _ (get_metadata-Keeps s) (λ a v. refl) w
  serve-Keeps (Descriptor.file f) (Request.set_size n) h w =
      Keeping.guard-Keeps os reads f.perms.write ErrorCode.not_permitted _ h w
  serve-Keeps (Descriptor.dir d) (Request.set_size n) h w = refl
  serve-Keeps (Descriptor.file f) (Request.set_times a m) h w =
      Keeping.guard-Keeps os reads f.perms.write ErrorCode.not_permitted _ h w
  serve-Keeps (Descriptor.dir d) (Request.set_times a m) h w = changes-Keeps d _ h.0 w
  serve-Keeps (Descriptor.dir d) (Request.stat_at f p) h w =
      Keeping.guarded-Keeps os reads d.perms.read ErrorCode.not_permitted _
        (reads_at-Keeps d (look_up os f p) _ (Keeping.look_up-Keeps os reads f p)
          descriptor_stat-Keeps)
        w
  serve-Keeps (Descriptor.dir d) (Request.metadata_hash_at f p) h w =
      reads_at-Keeps d (look_up os f p) _ (Keeping.look_up-Keeps os reads f p) (λ a v. refl) w
  serve-Keeps (Descriptor.dir d) (Request.set_times_at f p a m) h w = changes-Keeps d _ h.0 w
  serve-Keeps (Descriptor.dir d) (Request.link_at f p n q) h w = changes-Keeps d _ h.0 w
  serve-Keeps (Descriptor.dir d) (Request.rename_at p n q) h w = changes-Keeps d _ h.0 w
  serve-Keeps (Descriptor.dir d) (Request.symlink_at p q) h w = changes-Keeps d _ h.0 w
  serve-Keeps (Descriptor.dir d) (Request.create_directory_at p) h w = changes-Keeps d _ h.0 w
  serve-Keeps (Descriptor.dir d) (Request.remove_directory_at p) h w = changes-Keeps d _ h.0 w
  serve-Keeps (Descriptor.dir d) (Request.unlink_file_at p) h w = changes-Keeps d _ h.0 w
  serve-Keeps (Descriptor.dir d) (Request.readlink_at p) h w =
      Keeping.guarded-Keeps os reads d.perms.read ErrorCode.not_permitted _
        (Keeping.then-Keeps os reads (run_dir os d (λ c. os.read_link c p)) _
          (Keeping.run_dir-Keeps os reads d (λ c. os.read_link c p) (λ c. reads.read_link c p))
          (λ a.
            Keeping.lift-Keeps os reads
              (elim a [ none ↦ err ErrorCode.illegal_byte_sequence | some q ↦ ok q ])))
        w
  serve-Keeps s (Request.is_same_object o) h w =
      Keeping.then-Keeps os reads (get_metadata os s) _ (get_metadata-Keeps s)
        (λ a.
          Keeping.then-Keeps os reads (get_metadata os o) _ (get_metadata-Keeps o) (λ b v. refl))
        w
  serve-Keeps (Descriptor.dir d) (Request.open_at f p o fl b) h w = open_at-Keeps d f p o fl b h.0 w
  serve-Keeps (Descriptor.file x) (Request.open_at f p o fl b) h w = file_open-Keeps x f p o fl b w
  serve-Keeps (Descriptor.file f) _ h w = refl

  -- Whatever a guest calls, and in whatever order, on a directory that it may not change and whose files it may not
  -- write, and on all that it opens from there, the files stay as they are, if cap-std changes no file in a call
  -- that reads, nor in an open that neither writes, truncates nor creates.
  pub Session-files :
      (d : Dir) (w v : os.World)
      → d.perms.mutate ≡ false
      → d.file_perms.write ≡ false
      → Session os (Descriptor.dir d) w v
      → reads.files v ≡ reads.files w
  Session-files d w v m k start = refl
  Session-files d w v m k (call {v = u} t s r from e) =
      ap reads.files e
      ∙ serve-Keeps s r (IsWithin-IsReadOnly d s (Derived-IsWithin os d s from) m k) u
      ∙ Session-files d w u m k t
