-- ===== src/Schedules/Db/Ensures.antt =====
-- What a chain of statements ensures of its result, when it does not fail.
use neems_core.Schedules.Db.{
  DbError, DbResult, err, fail_if, ok, ok_injective, or_fail, ◌>>=◌, ◌>>◌,
}
use mathlib.Core.Path.{subst}
use neems_core.Prelude.{refl, Bool, true, false, Option, none, some, ◌≡◌}

abbrev pub Ensures : {A : Type 0} → (A → Type 0) → DbResult A → Type 0
Ensures p (ok a) = p a
Ensures p (err e) = Unit {0}

pub Ensures-bind :
    {A B : Type 0} (p : A → Type 0) (r : B → Type 0) (m : DbResult A) (f : A → DbResult B)
    → Ensures p m
    → ((a : A) → p a → Ensures r (f a))
    → Ensures r (m >>= f)
Ensures-bind p r (ok a) f h k = k a h
Ensures-bind p r (err e) f h k = tt

pub Ensures-fail_if :
    {B : Type 0} (r : B → Type 0) (b : Bool) (e : DbError) (m : DbResult B)
    → (b ≡ false → Ensures r m)
    → Ensures r (fail_if b e >> m)
Ensures-fail_if r true e m k = tt
Ensures-fail_if r false e m k = k refl

pub Ensures-check :
    {B : Type 0} (r : B → Type 0) (c : DbResult (Unit {0})) (m : DbResult B)
    → Ensures r m
    → Ensures r (c >> m)
Ensures-check r (ok tt) m k = k
Ensures-check r (err e) m k = tt

pub Ensures-or_fail :
    {A B : Type 0} (r : B → Type 0) (o : Option A) (e : DbError) (f : A → DbResult B)
    → ((a : A) → o ≡ some a → Ensures r (f a))
    → Ensures r (or_fail o e >>= f)
Ensures-or_fail r none e f k = tt
Ensures-or_fail r (some a) e f k = k a refl

pub Ensures-of :
    {A : Type 0} (p : A → Type 0) (m : DbResult A) → ((a : A) → m ≡ ok a → p a) → Ensures p m
Ensures-of p (ok a) k = k a refl
Ensures-of p (err e) k = tt

pub ok-Ensures :
    {A : Type 0} (p : A → Type 0) (m : DbResult A) (a : A) → Ensures p m → m ≡ ok a → p a
ok-Ensures p (ok b) a h e = subst p (ok_injective b a e) h
ok-Ensures p (err x) a h e = cc
