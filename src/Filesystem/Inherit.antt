-- ===== src/Filesystem/Inherit.antt =====
-- The permissions of the descriptors that `open_at` of filesystem/mod.rs gives.
use wasmx.Base.{◌≡◌, refl, subst, ap, Bool, true, ok, arith, sym, ◌∙◌}
use wasmx.Filesystem.{
  Os, done, File, Dir, Descriptor, OpenMode, PathFlags, OpenFlags, DescriptorFlags,
}
use wasmx.Filesystem.Methods.{run_dir}
use wasmx.Filesystem.Open.{
  open_at, check_flags, check_options, open_options, open_body, descriptor_of, OpenResult, dir,
  file, not_dir,
}
use wasmx.Filesystem.Calls.{after-done, lift-done, done-injective}
use wasmx.Filesystem.Sessions.{Derived, itself, opened}

-- A descriptor whose permissions are those of the directory `d`, and that is recorded as open for writing only
-- where files may be written.
pub record FileWithin (d : Dir) (f : File) : Type 0 where
  pub perms : f.perms ≡ d.file_perms
  pub mode : f.open_mode.write ≡ true → d.file_perms.write ≡ true

pub record DirWithin (d e : Dir) : Type 0 where
  pub perms : e.perms ≡ d.perms
  pub file_perms : e.file_perms ≡ d.file_perms

abbrev pub IsWithin : Dir → Descriptor → Type 0
IsWithin d (Descriptor.file f) = FileWithin d f
IsWithin d (Descriptor.dir e) = DirWithin d e

check_options-mode :
    (d : Dir) (o : OpenFlags) (f : DescriptorFlags) (m : OpenMode)
    → check_options d o f m ≡ ok tt
    → m.write ≡ true
    → d.file_perms.write ≡ true
unfolding check_options
check_options-mode d o f m e h = ground arith

module _ (os : Os) where
  descriptor_of-IsWithin :
      (d e : Dir) (m : OpenMode) (b : Bool) (t : Descriptor) (r : OpenResult) (w : os.World)
      → DirWithin d e
      → (m.write ≡ true → e.file_perms.write ≡ true)
      → (descriptor_of e m b r w).0 ≡ done t
      → IsWithin d t
  unfolding descriptor_of
  descriptor_of-IsWithin d e m b t (dir x) w h k q =
      subst (IsWithin d) (done-injective q) record { perms = h.perms; file_perms = h.file_perms }
  descriptor_of-IsWithin d e m b t (file x) w h k q =
      subst (IsWithin d) (done-injective q)
        record { perms = h.file_perms; mode = λ a. ap (λ p. p.write) (sym h.file_perms) ∙ k a }
  descriptor_of-IsWithin d e m b t not_dir w h k q = absurd (cc q)

  open_at-IsWithin :
      (d e : Dir) (t : Descriptor) (f : PathFlags) (p : os.FilePath) (o : OpenFlags)
      (fl : DescriptorFlags) (b : Bool) (w : os.World)
      → DirWithin d e
      → (open_at os (Descriptor.dir e) f p o fl b w).0 ≡ done t
      → IsWithin d t
  unfolding open_at
  open_at-IsWithin d e t f p o fl b w h q =
      let (u, _, q1) = lift-done (check_flags e o fl) w _ q in
      let (v, c, q2) = lift-done (check_options e o fl (open_options f o fl).1) w _ q1 in
      let (r, _, q3) =
        after-done (run_dir os e (open_body os p (open_options f o fl).0 o.directory) w) _ q2 in
      descriptor_of-IsWithin d e (open_options f o fl).1 b t r _ h
        (check_options-mode e o fl (open_options f o fl).1 c) q3

  opens-IsWithin :
      (d : Dir) (s t : Descriptor) (f : PathFlags) (p : os.FilePath) (o : OpenFlags)
      (fl : DescriptorFlags) (b : Bool) (w : os.World)
      → IsWithin d s
      → (open_at os s f p o fl b w).0 ≡ done t
      → IsWithin d t
  unfolding open_at
  opens-IsWithin d (Descriptor.file x) t f p o fl b w h q = absurd (cc q)
  opens-IsWithin d (Descriptor.dir e) t f p o fl b w h q = open_at-IsWithin d e t f p o fl b w h q

  -- Every descriptor that is opened from a directory, through any others, has the directory's permissions or those
  -- that it gives to files, and a file is recorded as open for writing only where files may be written.
  pub Derived-IsWithin : (d : Dir) (t : Descriptor) → Derived os (Descriptor.dir d) t → IsWithin d t
  Derived-IsWithin d t itself = record { perms = refl; file_perms = refl }
  Derived-IsWithin d t (opened {s} r f p o fl b w e) =
      opens-IsWithin d s t f p o fl b w (Derived-IsWithin d s r) e
