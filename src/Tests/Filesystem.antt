-- ===== src/Tests/Filesystem.antt =====
-- The calls of a filesystem whose world counts the changes of its files. A path of 0 is a directory, and every other
-- a file.
use wasmx.Base.{
  ℕ, ◌≡◌, ◌↔◌, ◌≤◌, ◌<◌, ◌+◌, ◌*◌, arith, refl, true, false, not, ◌||◌, some, ok, ◌==◌,
  if◌then◌else◌, u64_max,
}
use wasmx.Filesystem.{
  Os, done, fails, panics, Dir, Descriptor, PathFlags, OpenFlags, Metadata, OpenOptions, SystemTime,
}
use wasmx.Filesystem.Errors.{ErrorCode}
use wasmx.Filesystem.Times.{
  Datetime, systemtime_from, systemtime_from_iff, IsInstant, total, second, i64_max,
}
use wasmx.Filesystem.Methods.{get_metadata, is_same_object, metadata_hash}
use wasmx.Filesystem.Open.{
  open_at, opened_as, preopened_dir, with_create, with_truncate, with_read, with_write,
}
use wasmx.Filesystem.Sessions.{Request, serve, Derived, itself, opened, Session, start, call}
use wasmx.Filesystem.Inherit.{IsWithin, Derived-IsWithin}
use wasmx.Filesystem.ReadOnly.Keeping.{Reads}
use wasmx.Filesystem.ReadOnly.{Session-files}
use wasmx.Filesystem.Admission.{truncating, reading, open_at-truncates}
use wasmx.Filesystem.Reports.{is_same_object-metadata_hash}

abbrev meta_of : ℕ → Metadata
meta_of h = record {
  file_type = record {
    is_dir = h == 0;
    is_symlink = false;
    is_block_device = false;
    is_char_device = false;
    is_file = not (h == 0);
  };
  nlink = 1;
  len = 0;
  accessed = false;
  modified = false;
  created = false;
  dev = 1;
  ino = h;
}

abbrev opens : OpenOptions → ℕ → ℕ
opens o w = if o.write || o.truncate || o.create || o.create_new then w + 1 else w

abbrev os : Os
os = record {
  World = ℕ;
  FilePath = ℕ;
  file_metadata = λ h w. (ok (meta_of h), w);
  dir_metadata = λ h w. (ok (meta_of h), w);
  advise = λ h n k a w. (ok tt, w);
  sync_data = λ h w. (ok tt, w);
  sync_all = λ h w. (ok tt, w);
  open_current = λ h w. (ok h, w);
  get_fd_flags = λ h w. (ok (record { dsync = false; rsync = false; sync = false }), w);
  set_len = λ h n w. (ok tt, w + 1);
  set_times = λ h a m w. (ok tt, w + 1);
  set_times_at = λ h p a m w. (ok tt, w + 1);
  set_symlink_times = λ h p a m w. (ok tt, w + 1);
  metadata = λ h p w. (ok (meta_of p), w);
  symlink_metadata = λ h p w. (ok (meta_of p), w);
  create_dir = λ h p w. (ok tt, w + 1);
  hard_link = λ h p k q w. (ok tt, w + 1);
  open_with = λ h p o w. (ok p, opens o w);
  set_nonblock = λ h w. (ok tt, w);
  read_link = λ h p w. (ok (some p), w);
  remove_dir = λ h p w. (ok tt, w + 1);
  rename = λ h p k q w. (ok tt, w + 1);
  symlink = λ h p q w. (ok tt, w + 1);
  remove_file_or_symlink = λ h p w. (ok tt, w + 1);
  hash = λ a b. a + b;
}

opens-same :
    (o : OpenOptions) (w : ℕ)
    → o.write ≡ false
    → o.truncate ≡ false
    → o.create ≡ false
    → o.create_new ≡ false
    → opens o w ≡ w
opens-same o w a b c d = rw (a, b, c, d) refl

abbrev reads : Reads os
reads = record {
  Files = ℕ;
  files = λ w. w;
  file_metadata = λ h w. refl;
  dir_metadata = λ h w. refl;
  advise = λ h n k a w. refl;
  sync_data = λ h w. refl;
  sync_all = λ h w. refl;
  open_current = λ h w. refl;
  get_fd_flags = λ h w. refl;
  metadata = λ h p w. refl;
  symlink_metadata = λ h p w. refl;
  read_link = λ h p w. refl;
  set_nonblock = λ h w. refl;
  open_with = λ h p o w a b c d. opens-same o w a b c d;
}

-- a directory to read only, one whose files may not be written, and one that may be changed
abbrev library : Dir
library =
    preopened_dir 0 (record { read = true; mutate = false }) (record { read = true; write = false })
      true

abbrev shelf : Dir
shelf =
    preopened_dir 0 (record { read = true; mutate = true }) (record { read = true; write = false })
      true

abbrev home : Dir
home =
    preopened_dir 0 (record { read = true; mutate = true }) (record { read = true; write = true })
      true

abbrev follow : PathFlags
follow = record { symlink_follow = true }

abbrev plain : OpenFlags
plain = record { create = false; directory = false; exclusive = false; truncate = false }

abbrev creating : OpenFlags
creating = record { create = true; directory = false; exclusive = true; truncate = false }

abbrev book : Descriptor
book = Descriptor.file (record {
  file = 7;
  perms = record { read = true; write = false };
  open_mode = record { read = true; write = false };
  allow_blocking_current_thread = true;
})

book_opened : (open_at os (Descriptor.dir library) follow 7 plain reading true 0).0 ≡ done book
unfolding open_at preopened_dir with_create with_truncate with_read with_write opened_as
book_opened = refl

book-Derived : Derived os (Descriptor.dir library) book
book-Derived = opened itself follow 7 plain reading true 0 book_opened

abbrev after_calls : ℕ
after_calls =
    serve os book (Request.set_size 9)
      (serve os (Descriptor.dir library) (Request.create_directory_at 3) 0)

session : Session os (Descriptor.dir library) 0 after_calls
session =
    call (call start (Descriptor.dir library) (Request.create_directory_at 3) itself refl) book
      (Request.set_size 9) book-Derived refl

Session-files_example : after_calls ≡ 0
unfolding preopened_dir
Session-files_example = Session-files os reads library 0 after_calls refl refl session

Derived-IsWithin_example : IsWithin library book
Derived-IsWithin_example = Derived-IsWithin os library book book-Derived

open_at-truncates_example : open_at os (Descriptor.dir shelf) follow 7 truncating reading true 0 ≡ (
  done (
      Descriptor.file (record {
        file = 7;
        perms = shelf.file_perms;
        open_mode = record { read = true; write = false };
        allow_blocking_current_thread = true;
      })),
  1,
)
unfolding preopened_dir
open_at-truncates_example =
    open_at-truncates os shelf follow 7 true 7 (meta_of 7) 0 1 1 1 refl refl refl refl refl refl
      refl

-- The call leaves a change.
truncated : (open_at os (Descriptor.dir shelf) follow 7 truncating reading true 0).1 ≡ 1
unfolding open_at preopened_dir with_create with_truncate with_read with_write opened_as
truncated = refl

same : (is_same_object os book book 0).0 ≡ done true
unfolding is_same_object
same = refl

is_same_object-metadata_hash_example :
    (metadata_hash os book 0).0 ≡ (metadata_hash os book (get_metadata os book 0).1).0
is_same_object-metadata_hash_example = is_same_object-metadata_hash os book book 0 same

abbrev instant : Datetime
instant = record { seconds = u64_max; nanoseconds = 1_000_000_000 }

abbrev moment : SystemTime
moment = record { seconds = 0; nanoseconds = 0 }

systemtime_from_iff_example :
    ((systemtime_from instant ≡ done moment) ↔ IsInstant instant moment)
    × ((systemtime_from instant ≡ fails ErrorCode.overflow)
        ↔ (((i64_max + 1) * second ≤ total instant) × (total instant < (u64_max + 1) * second)))
    × ((systemtime_from instant ≡ panics)
        ↔ (((u64_max + 1) * second ≤ total instant) × (second ≤ instant.nanoseconds)))
systemtime_from_iff_example = systemtime_from_iff instant moment (omega arith)
