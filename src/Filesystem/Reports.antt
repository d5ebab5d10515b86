-- ===== src/Filesystem/Reports.antt =====
-- What the calls on a descriptor of filesystem/mod.rs report of it.
use wasmx.Base.{◌≡◌, sym, ap, ◌∙◌, Bool, true, ◌&&◌, arith, ◌==◌}
use wasmx.Filesystem.{Os, done, Descriptor, DescriptorFlags, OpenMode, Metadata}
use wasmx.Filesystem.Methods.{get_metadata, is_same_object, metadata_hash, metadata_hash_value}
use wasmx.Filesystem.Calls.{after-done, after-of, done-injective}

pub mode_of : Descriptor → OpenMode
mode_of (Descriptor.file f) = f.open_mode
mode_of (Descriptor.dir d) = d.open_mode

-- the flag for writing: a directory has its own
pub writes : Descriptor → DescriptorFlags → Bool
writes (Descriptor.file f) flags = flags.write
writes (Descriptor.dir d) flags = flags.mutate_directory

module _ (os : Os) where
  same_hash :
      (a b : Metadata)
      → ((a.dev == b.dev) && (a.ino == b.ino)) ≡ true
      → metadata_hash_value os.hash a ≡ metadata_hash_value os.hash b
  unfolding metadata_hash_value
  same_hash a b e = ground arith

  metadata_hash-of :
      (s : Descriptor) (w : os.World) (m : Metadata)
      → (get_metadata os s w).0 ≡ done m
      → (metadata_hash os s w).0 ≡ done (metadata_hash_value os.hash m)
  unfolding metadata_hash
  metadata_hash-of s w m e = ap (λ x. x.0) (after-of (get_metadata os s w) _ e)

  -- Two descriptors that are found to be of the same object have the same hash.
  pub is_same_object-metadata_hash :
      (s o : Descriptor) (w : os.World)
      → (is_same_object os s o w).0 ≡ done true
      → (metadata_hash os s w).0 ≡ (metadata_hash os o (get_metadata os s w).1).0
  unfolding is_same_object metadata_hash metadata_hash_value
  is_same_object-metadata_hash s o w q =
      let (a, e, q1) = after-done (get_metadata os s w) _ q in
      let (b, d, q2) = after-done (get_metadata os o (get_metadata os s w).1) _ q1 in
      metadata_hash-of s w a e
      ∙ ap done (same_hash a b (done-injective q2))
      ∙ sym (metadata_hash-of o (get_metadata os s w).1 b d)
