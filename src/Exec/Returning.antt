-- ===== src/Exec/Returning.antt =====
-- Actions that never throw.
use dchat_desktop.Common.{Option, none, some, Bool, true, false, List, [], ◌∷◌, ◌≡◌, refl}
use dchat_desktop.Store.Db.{Db}
use dchat_desktop.Exec.Monad.{
  World, Push, Result, ok, err, Exec, pure, next, ◌>>=◌, gets, modify, push, my_address, when,
  with_some, for_each,
}

abbrev pub succeeds : {A : Type 0} → Result A → Bool
succeeds (ok a) = true
succeeds (err e) = false

pub record Returns {A : Type 0} (m : Exec A) : Type 0 where
  pub at : (w : World) → succeeds (m w).0 ≡ true

Returns-next :
    {A B : Type 0} (r : Result A) (f : A → Exec B) (w : World)
    → succeeds r ≡ true
    → ((a : A) → Returns (f a))
    → succeeds (next (r, w) f).0 ≡ true
Returns-next (ok a) f w h k = (k a).at w
Returns-next (err e) f w h k = cc

pub Returns-bind :
    {A B : Type 0} (m : Exec A) (f : A → Exec B)
    → Returns m
    → ((a : A) → Returns (f a))
    → Returns (m >>= f)
unfolding ◌>>=◌
Returns-bind m f h k = record { at = λ w. Returns-next (m w).0 f (m w).1 (h.at w) k }

-- A first step that returns in this world.
pub returns_after :
    {A B : Type 0} (m : Exec A) (f : A → Exec B) (w : World)
    → succeeds (m w).0 ≡ true
    → ((a : A) → succeeds (f a (m w).1).0 ≡ true)
    → succeeds ((m >>= f) w).0 ≡ true
unfolding ◌>>=◌
returns_after m f w h k = go (m w).0 h k
  where
    go :
        (r : Result _)
        → succeeds r ≡ true
        → ((a : _) → succeeds (f a (m w).1).0 ≡ true)
        → succeeds (next (r, (m w).1) f).0 ≡ true
    go (ok a) h k = k a
    go (err e) h k = cc

pub Returns-pure : {A : Type 0} (a : A) → Returns (pure a)
unfolding pure
Returns-pure a = record { at = λ w. refl }

pub Returns-gets : {A : Type 0} (f : Db → A) → Returns (gets f)
unfolding gets
Returns-gets f = record { at = λ w. refl }

pub Returns-my_address : Returns my_address
unfolding my_address
Returns-my_address = record { at = λ w. refl }

pub Returns-modify : (f : Db → Db) → Returns (modify f)
unfolding modify
Returns-modify f = record { at = λ w. refl }

pub Returns-push : (p : Push) → Returns (push p)
unfolding push
Returns-push p = record { at = λ w. refl }

pub Returns-when : (b : Bool) (m : Exec (Unit {0})) → Returns m → Returns (when b m)
unfolding when
Returns-when true m h = h
Returns-when false m h = Returns-pure tt

pub Returns-with_some :
    {A : Type 0} (o : Option A) (f : A → Exec (Unit {0}))
    → ((a : A) → Returns (f a))
    → Returns (with_some o f)
unfolding with_some
Returns-with_some none f h = Returns-pure tt
Returns-with_some (some a) f h = h a

pub Returns-for_each :
    {A : Type 0} (xs : List A) (f : A → Exec (Unit {0}))
    → ((a : A) → Returns (f a))
    → Returns (for_each xs f)
unfolding for_each
Returns-for_each [] f h = Returns-pure tt
Returns-for_each (x ∷ xs) f h = Returns-bind (f x) _ (h x) (λ _. Returns-for_each xs f h)

pub ruleset returns_rules = (
  Returns-bind, Returns-pure, Returns-gets, Returns-my_address, Returns-modify, Returns-push,
  Returns-when, Returns-with_some, Returns-for_each,
)

pub ok_of_succeeds : (r : Result (Unit {0})) → succeeds r ≡ true → r ≡ ok tt
ok_of_succeeds (ok a) h = refl
ok_of_succeeds (err e) h = cc
