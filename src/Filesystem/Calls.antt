-- ===== src/Filesystem/Calls.antt =====
-- What a call of filesystem/mod.rs does, from what its parts do.
use wasmx.Base.{◌≡◌, refl, ap, Result, ok, err}
use wasmx.Filesystem.{M, Outcome, done, fails, panics, after, lift}
use wasmx.Filesystem.Errors.{ErrorCode}

-- A call that is done has done its first part.
pub after-done :
    {W E A B : Type 0} {b : B} (r : Outcome A E × W) (k : A → M W E B)
    → (after r k).0 ≡ done b
    → (a : A) × (r.0 ≡ done a) × ((k a r.1).0 ≡ done b)
after-done (done a, w) k e = (a, refl, e)
after-done (fails x, w) k e = absurd (cc e)
after-done (panics, w) k e = absurd (cc e)

pub lift-done :
    {W A B : Type 0} {b : B} (r : Result A ErrorCode) (w : W) (k : A → M W ErrorCode B)
    → (after (lift r w) k).0 ≡ done b
    → (a : A) × (r ≡ ok a) × ((k a w).0 ≡ done b)
lift-done (ok a) w k e = (a, refl, e)
lift-done (err x) w k e = absurd (cc e)

pub done-injective : {A E : Type 0} {a b : A} → ◌≡◌ {A = Outcome A E} (done a) (done b) → a ≡ b
done-injective e = cc e

-- What follows a part that is done.
pub after-of :
    {W E A B : Type 0} {a : A} (r : Outcome A E × W) (k : A → M W E B)
    → r.0 ≡ done a
    → after r k ≡ k a r.1
after-of (done b, w) k e = ap (λ x. k x w) (done-injective e)
after-of (fails x, w) k e = absurd (cc e)
after-of (panics, w) k e = absurd (cc e)
