-- ===== src/Filesystem/Sessions.antt =====
-- What a guest does with the descriptors of filesystem/mod.rs that it has from one directory.
use wasmx.Base.{ℕ, Bool, ◌≡◌}
use wasmx.Filesystem.{Os, Descriptor, done, Advice, PathFlags, OpenFlags, DescriptorFlags}
use wasmx.Filesystem.Times.{NewTimestamp}
use wasmx.Filesystem.Methods
use wasmx.Filesystem.Open

-- A call on a descriptor; a second descriptor may be any.
pub data Request (os : Os) : Type 0 where
  advise : ℕ → ℕ → Advice → Request os
  sync_data sync get_flags get_type stat metadata_hash : Request os
  set_size : ℕ → Request os
  set_times : NewTimestamp → NewTimestamp → Request os
  stat_at metadata_hash_at : PathFlags → os.FilePath → Request os
  set_times_at : PathFlags → os.FilePath → NewTimestamp → NewTimestamp → Request os
  link_at : PathFlags → os.FilePath → Descriptor → os.FilePath → Request os
  rename_at : os.FilePath → Descriptor → os.FilePath → Request os
  symlink_at : os.FilePath → os.FilePath → Request os
  create_directory_at readlink_at remove_directory_at unlink_file_at : os.FilePath → Request os
  is_same_object : Descriptor → Request os
  open_at : PathFlags → os.FilePath → OpenFlags → DescriptorFlags → Bool → Request os

module _ (os : Os) where
  -- What a call leaves of the world.
  unfoldable pub serve : Descriptor → Request os → os.World → os.World
  serve s (Request.advise offset len a) w = (Methods.advise os s offset len a w).1
  serve s Request.sync_data w = (Methods.sync_data os s w).1
  serve s Request.sync w = (Methods.sync os s w).1
  serve s Request.get_flags w = (Methods.get_flags os s w).1
  serve s Request.get_type w = (Methods.get_type os s w).1
  serve s Request.stat w = (Methods.stat os s w).1
  serve s Request.metadata_hash w = (Methods.metadata_hash os s w).1
  serve s (Request.set_size n) w = (Methods.set_size os s n w).1
  serve s (Request.set_times a m) w = (Methods.set_times os s a m w).1
  serve s (Request.stat_at f p) w = (Methods.stat_at os s f p w).1
  serve s (Request.metadata_hash_at f p) w = (Methods.metadata_hash_at os s f p w).1
  serve s (Request.set_times_at f p a m) w = (Methods.set_times_at os s f p a m w).1
  serve s (Request.link_at f p n q) w = (Methods.link_at os s f p n q w).1
  serve s (Request.rename_at p n q) w = (Methods.rename_at os s p n q w).1
  serve s (Request.symlink_at p q) w = (Methods.symlink_at os s p q w).1
  serve s (Request.create_directory_at p) w = (Methods.create_directory_at os s p w).1
  serve s (Request.readlink_at p) w = (Methods.readlink_at os s p w).1
  serve s (Request.remove_directory_at p) w = (Methods.remove_directory_at os s p w).1
  serve s (Request.unlink_file_at p) w = (Methods.unlink_file_at os s p w).1
  serve s (Request.is_same_object o) w = (Methods.is_same_object os s o w).1
  serve s (Request.open_at f p o d b) w = (Open.open_at os s f p o d b w).1

  -- The descriptors that `open_at` gives, from `root` on, whatever the world is like at each.
  pub data Derived (root : Descriptor) : Descriptor → Type 0 where
    itself : Derived root root
    opened :
        {s t : Descriptor}
        → Derived root s
        → (f : PathFlags) (p : os.FilePath) (o : OpenFlags) (d : DescriptorFlags) (b : Bool)
          (w : os.World)
        → (Open.open_at os s f p o d b w).0 ≡ done t
        → Derived root t

  -- Calls one after the other, each on a descriptor from `root`.
  pub data Session (root : Descriptor) (w : os.World) : os.World → Type 0 where
    start : Session root w w
    call :
        {v u : os.World}
        → Session root w v
        → (s : Descriptor) (r : Request os) → Derived root s
        → u ≡ serve s r v
        → Session root w u
