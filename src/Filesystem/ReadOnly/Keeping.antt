-- ===== src/Filesystem/ReadOnly/Keeping.antt =====
-- What cap-std is relied on for in filesystem/mod.rs, and the calls that leave the files as they are.
use wasmx.Base.{
  ℕ, ◌≡◌, refl, ◌∙◌, Bool, true, false, ⊤, ok, err, Result, inl, inr, Bool-cases, Result-cases,
}
use wasmx.Io.{Handle}
use wasmx.Filesystem.{
  Os, M, Outcome, done, fails, panics, after, lift, io, guard, Dir, File, Advice, OpenOptions,
  PathFlags,
}
use wasmx.Filesystem.Errors.{ErrorCode, IoError}
use wasmx.Filesystem.Methods.{run_dir, run_file, look_up, sync_current}

-- The files of a world, and the calls of cap-std that only read them or ask for them to be kept. An open that is not
-- for writing, and neither truncates nor creates, does not change them.
pub record Reads (os : Os) : Type 1 where
  pub Files : Type 0
  pub files : os.World → Files
  pub file_metadata : (h : Handle) (w : os.World) → files (os.file_metadata h w).1 ≡ files w
  pub dir_metadata : (h : Handle) (w : os.World) → files (os.dir_metadata h w).1 ≡ files w
  pub advise :
      (h : Handle) (n k : ℕ) (a : Advice) (w : os.World) → files (os.advise h n k a w).1 ≡ files w
  pub sync_data : (h : Handle) (w : os.World) → files (os.sync_data h w).1 ≡ files w
  pub sync_all : (h : Handle) (w : os.World) → files (os.sync_all h w).1 ≡ files w
  pub open_current : (h : Handle) (w : os.World) → files (os.open_current h w).1 ≡ files w
  pub get_fd_flags : (h : Handle) (w : os.World) → files (os.get_fd_flags h w).1 ≡ files w
  pub metadata :
      (h : Handle) (p : os.FilePath) (w : os.World) → files (os.metadata h p w).1 ≡ files w
  pub symlink_metadata :
      (h : Handle) (p : os.FilePath) (w : os.World) → files (os.symlink_metadata h p w).1 ≡ files w
  pub read_link :
      (h : Handle) (p : os.FilePath) (w : os.World) → files (os.read_link h p w).1 ≡ files w
  pub set_nonblock : (h : Handle) (w : os.World) → files (os.set_nonblock h w).1 ≡ files w
  pub open_with :
      (h : Handle) (p : os.FilePath) (o : OpenOptions) (w : os.World)
      → o.write ≡ false
      → o.truncate ≡ false
      → o.create ≡ false
      → o.create_new ≡ false
      → files (os.open_with h p o w).1 ≡ files w

module _ (os : Os) (reads : Reads os) where
  -- A call, or the body of one, that leaves the files.
  abbrev pub Keeps : {R : Type 0} → (os.World → R × os.World) → Type 0
  Keeps m = (w : os.World) → reads.files (m w).1 ≡ reads.files w

  pub after-Keeps :
      {E A B : Type 0} (r : Outcome A E × os.World) (k : A → M os.World E B)
      → ((a : A) → Keeps (k a))
      → reads.files (after r k).1 ≡ reads.files r.1
  after-Keeps (done a, w) k h = h a w
  after-Keeps (fails e, w) k h = refl
  after-Keeps (panics, w) k h = refl

  pub then-Keeps :
      {E A B : Type 0} (m : M os.World E A) (k : A → M os.World E B)
      → Keeps m
      → ((a : A) → Keeps (k a))
      → Keeps (λ w. after (m w) k)
  then-Keeps m k a b w = after-Keeps (m w) k b ∙ a w

  pub lift-Keeps : {A : Type 0} (r : Result A ErrorCode) → Keeps (lift {W = os.World} r)
  lift-Keeps (ok a) w = refl
  lift-Keeps (err e) w = refl

  -- What a guard does not let through changes nothing.
  pub guard-Keeps :
      {B : Type 0} (b : Bool) (e : ErrorCode) (k : M os.World ErrorCode B)
      → b ≡ false
      → Keeps (λ w. after (guard b e w) (λ u. k))
  guard-Keeps false e k h w = refl
  guard-Keeps true e k h w = absurd (cc h)

  pub guarded-Keeps :
      {B : Type 0} (b : Bool) (e : ErrorCode) (k : M os.World ErrorCode B)
      → Keeps k
      → Keeps (λ w. after (guard b e w) (λ u. k))
  guarded-Keeps false e k h w = refl
  guarded-Keeps true e k h w = h w

  io-world : {A : Type 0} (r : Result A IoError × os.World) → (io r).1 ≡ r.1
  io-world (ok a, w) = refl
  io-world (err e, w) = refl

  pub run_dir-Keeps :
      {A : Type 0} (d : Dir) (body : Handle → os.World → Result A IoError × os.World)
      → ((h : Handle) → Keeps (body h))
      → Keeps (run_dir os d body)
  run_dir-Keeps d body h w = rw (io-world (body d.dir w)) (h d.dir w)

  pub run_file-Keeps :
      {A : Type 0} (f : File) (body : Handle → os.World → Result A IoError × os.World)
      → ((h : Handle) → Keeps (body h))
      → Keeps (run_file os f body)
  unfolding run_file
  run_file-Keeps f body h w = elim (Bool-cases f.allow_blocking_current_thread) [
    | inl e ↦ rw (e, io-world (body f.file w)) (h f.file w)
    | inr e ↦ rw e (h f.file w)
  ]

  pub look_up-Keeps :
      (flags : PathFlags) (p : os.FilePath) (h : Handle) → Keeps (look_up os flags p h)
  look_up-Keeps flags p h w = elim (Bool-cases flags.symlink_follow) [
    | inl e ↦ rw e (reads.metadata h p w)
    | inr e ↦ rw e (reads.symlink_metadata h p w)
  ]

  pub sync_current-Keeps :
      (sync : Handle → os.World → Result ⊤ IoError × os.World)
      → ((h : Handle) → Keeps (sync h))
      → (h : Handle) → Keeps (sync_current os sync h)
  unfolding sync_current
  sync_current-Keeps sync k h w = elim (Result-cases (os.open_current h w).0) [
    | inl (c, e) ↦ rw (e, sync_current) (k c (os.open_current h w).1 ∙ reads.open_current h w)
    | inr (x, e) ↦ rw (e, sync_current) (reads.open_current h w)
  ]
