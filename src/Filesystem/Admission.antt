-- ===== src/Filesystem/Admission.antt =====
-- Which calls of `open_at` in filesystem/mod.rs reach cap-std, and with what options.
use wasmx.Base.{◌≡◌, ◌↔◌, ◌⊎◌, ◌∙◌, ap, refl, inl, inr, Bool, true, false, ok, arith}
use wasmx.Io.{Handle}
use wasmx.Filesystem.{
  Os, io, after, done, Dir, Descriptor, PathFlags, OpenFlags, DescriptorFlags, OpenOptions,
  Metadata,
}
use wasmx.Filesystem.Methods.{run_dir}
use wasmx.Filesystem.Open.{
  open_at, check_flags, check_options, open_options, open_body, OpenResult, descriptor_of,
  opened_as, with_create, with_truncate, with_read, with_write,
}

-- What a directory admits.
pub record Admits (d : Dir) (o : OpenFlags) (fl : DescriptorFlags) : Type 0 where
  pub reads : d.perms.read ≡ true
  pub changes :
      (d.perms.mutate ≡ true) ⊎ ((o.create ≡ false) × (o.truncate ≡ false) × (fl.write ≡ false))
  pub writes : (d.file_perms.write ≡ true) ⊎ ((o.create ≡ false) × (fl.write ≡ false))
  pub no_sync :
      (fl.file_integrity_sync ≡ false)
      × (fl.data_integrity_sync ≡ false)
      × (fl.requested_write_sync ≡ false)
  pub directory :
      (o.directory ≡ false) ⊎ ((o.create ≡ false) × (o.exclusive ≡ false) × (o.truncate ≡ false))

abbrev pub IsAdmitted : Dir → PathFlags → OpenFlags → DescriptorFlags → Type 0
IsAdmitted d f o fl =
    (check_flags d o fl ≡ ok tt) × (check_options d o fl (open_options f o fl).1 ≡ ok tt)

-- The two checks together test what `Admits` says.
pub IsAdmitted-Admits :
    (d : Dir) (f : PathFlags) (o : OpenFlags) (fl : DescriptorFlags)
    → IsAdmitted d f o fl ↔ Admits d o fl
unfolding check_flags check_options open_options
IsAdmitted-Admits d f o fl = (λ h. ground arith, λ h. ground arith)

-- the flags of a call that truncates and reads
abbrev pub truncating : OpenFlags
truncating = record { create = false; directory = false; exclusive = false; truncate = true }

abbrev pub reading : DescriptorFlags
reading = record {
  read = true;
  write = false;
  file_integrity_sync = false;
  data_integrity_sync = false;
  requested_write_sync = false;
  mutate_directory = false;
}

module _ (os : Os) where
  -- A call that passes the checks is carried out.
  open_at-IsAdmitted :
      (d : Dir) (f : PathFlags) (p : os.FilePath) (o : OpenFlags) (fl : DescriptorFlags) (b : Bool)
      (w : os.World)
      → IsAdmitted d f o fl
      → let t = open_options f o fl in
        open_at os (Descriptor.dir d) f p o fl b w
        ≡ after (run_dir os d (open_body os p t.0 o.directory) w) (descriptor_of d t.1 b)
  unfolding open_at
  open_at-IsAdmitted d f p o fl b w h = rw (h.0, open_at, h.1) refl

  open_body-file :
      (h : Handle) (p : os.FilePath) (opts : OpenOptions) (c : Handle) (m : Metadata)
      (w w1 w2 w3 : os.World)
      → os.open_with h p opts w ≡ (ok c, w1)
      → os.file_metadata c w1 ≡ (ok m, w2)
      → m.file_type.is_dir ≡ false
      → os.set_nonblock c w2 ≡ (ok tt, w3)
      → open_body os p opts false h w ≡ (ok (OpenResult.file c), w3)
  unfolding open_body opened_as
  open_body-file h p opts c m w w1 w2 w3 e1 e2 e3 e4 =
      rw
        (
          ap (λ z. z.0) e1,
          open_body,
          ap (λ z. z.1) e1,
          ap (λ z. z.0) e2,
          ap (λ z. z.1) e1,
          ap (λ z. z.1) e2,
          e3,
          opened_as,
          ap (λ z. z.0) e4,
          ap (λ z. z.1) e1,
          ap (λ z. z.1) e2,
          ap (λ z. z.1) e4,
        )
        refl

  -- what cap-std is asked for
  abbrev pub emptying : PathFlags → OpenOptions
  emptying f = record {
    maybe_dir = true;
    read = true;
    write = true;
    truncate = true;
    create = false;
    create_new = false;
    follow = f.symlink_follow;
  }

  -- Where a directory may be changed but its files may not be written, an open that truncates and asks for no
  -- more asks cap-std to open the file for writing and to truncate it. If cap-std does so, and what it opens is no
  -- directory and does not block, the call succeeds with the file, which is recorded as open for reading.
  pub open_at-truncates :
      (d : Dir) (f : PathFlags) (p : os.FilePath) (b : Bool) (c : Handle) (m : Metadata)
      (w w1 w2 w3 : os.World)
      → d.perms.read ≡ true
      → d.perms.mutate ≡ true
      → d.file_perms.write ≡ false
      → os.open_with d.dir p (emptying f) w ≡ (ok c, w1)
      → os.file_metadata c w1 ≡ (ok m, w2)
      → m.file_type.is_dir ≡ false
      → os.set_nonblock c w2 ≡ (ok tt, w3)
      → open_at os (Descriptor.dir d) f p truncating reading b w ≡ (
        done (
            Descriptor.file (record {
              file = c;
              perms = d.file_perms;
              open_mode = record { read = true; write = false };
              allow_blocking_current_thread = b;
            })),
        w3,
      )
  unfolding open_options descriptor_of with_create with_truncate with_read with_write
  open_at-truncates d f p b c m w w1 w2 w3 r k n e1 e2 e3 e4 =
      open_at-IsAdmitted d f p truncating reading b w (
        (IsAdmitted-Admits d f truncating reading).1 (record {
          reads = r;
          changes = inl k;
          writes = inr (refl, refl);
          no_sync = (refl, refl, refl);
          directory = inl refl;
        }))
      ∙ ap (λ z. after (io z) (descriptor_of d (record { read = true; write = false }) b))
          (open_body-file d.dir p (emptying f) c m w w1 w2 w3 e1 e2 e3 e4)
