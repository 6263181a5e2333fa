-- ===== src/Exec/Laws.antt =====
-- Properties of the world that actions keep, one rule for each way to build an action.
use dchat_desktop.Common.{
  Option, none, some, List, [], ◌∷◌, ◌++◌, Bool, true, false, ◌≡◌, refl, if◌then◌else◌, String,
}
use dchat_desktop.Store.Db.{Db}
use dchat_desktop.Types.Wire.{Packet}
use dchat_desktop.Exec.Monad.{
  World, Push, Sent, Task, start, Error, Result, ok, err, Exec, pure, throw, next, ◌>>=◌, gets,
  modify, committed, attempt, push, for_each, when, with_some, require, swallow, caught, my_address,
  send_no_reply, send_to_multiple, send_if, send_many,
}

-- `m` keeps `P`, whether it returns or throws.
pub record Keeps {A : Type 0} (P : World → Type 0) (m : Exec A) : Type 0 where
  pub at : (w : World) → P w → P (m w).1

-- `P` does not depend on what was sent or pushed.
pub record IsQuiet (P : World → Type 0) : Type 0 where
  pub sending : (w : World) (sent : List Sent) → P w → P (record w { sent = sent })
  pub pushing : (w : World) (pushed : List Push) → P w → P (record w { pushed = pushed })
  pub starting : (w : World) (tasks : List Task) → P w → P (record w { background = tasks })

Keeps-committed :
    (P : World → Type 0) (w : World) (o : Option Db)
    → P w
    → ((db : Db) → o ≡ some db → P (record w { db = db }))
    → P (committed w o).1
Keeps-committed P w none h k = h
Keeps-committed P w (some db) h k = k db refl

Keeps-caught : (P : World → Type 0) (r : Result (Unit {0})) (w : World) → P w → P (caught (r, w)).1
Keeps-caught P (ok a) w h = h
Keeps-caught P (err e) w h = h

module _ {P : World → Type 0} where
  pub Keeps-my_address : Keeps P my_address
  unfolding my_address
  Keeps-my_address = record { at = λ w h. h }

  pub Keeps-throw : {A : Type 0} (e : Error) → Keeps P (throw {A = A} e)
  unfolding throw
  Keeps-throw e = record { at = λ w h. h }

  pub Keeps-require : {A : Type 0} (o : Option A) (e : Error) → Keeps P (require o e)
  unfolding require throw pure
  Keeps-require none e = record { at = λ w h. h }
  Keeps-require (some a) e = record { at = λ w h. h }

  pub Keeps-gets : {A : Type 0} (f : Db → A) → Keeps P (gets f)
  unfolding gets
  Keeps-gets f = record { at = λ w h. h }

  pub Keeps-pure : {A : Type 0} (a : A) → Keeps P (pure a)
  unfolding pure
  Keeps-pure a = record { at = λ w h. h }

  pub Keeps-modify :
      (f : Db → Db) → ((w : World) → P w → P (record w { db = f w.db })) → Keeps P (modify f)
  unfolding modify
  Keeps-modify f h = record { at = h }

  pub Keeps-attempt :
      (f : Db → Option Db)
      → ((w : World) (db : Db) → P w → f w.db ≡ some db → P (record w { db = db }))
      → Keeps P (attempt f)
  unfolding attempt
  Keeps-attempt f h = record { at = λ w p. Keeps-committed P w (f w.db) p (λ db. h w db p) }

  pub Keeps-push : (p : Push) → IsQuiet P → Keeps P (push p)
  unfolding push
  Keeps-push p q = record { at = λ w. q.pushing w (w.pushed ++ p ∷ []) }

  pub Keeps-start : (t : Task) → IsQuiet P → Keeps P (start t)
  unfolding start
  Keeps-start t q = record { at = λ w. q.starting w (w.background ++ t ∷ []) }

  Keeps-send_if : (o : Option String) (s : Sent) → IsQuiet P → Keeps P (send_if o s)
  Keeps-send_if none s q = record { at = λ w h. h }
  Keeps-send_if (some a) s q = record { at = λ w. q.sending w (w.sent ++ s ∷ []) }

  pub Keeps-send_no_reply :
      (dest : String) (p : Packet) → IsQuiet P → Keeps P (send_no_reply dest p)
  unfolding send_no_reply
  Keeps-send_no_reply dest p q = record { at = λ w. (Keeps-send_if w.account _ q).at w }

  Keeps-send_many :
      (o : Option String) (dests : List String) (p : Packet)
      → IsQuiet P
      → Keeps P (send_many o dests p)
  Keeps-send_many none dests p q = record { at = λ w h. h }
  Keeps-send_many (some a) [] p q = record { at = λ w h. h }
  Keeps-send_many (some a) (d ∷ ds) p q = record { at = λ w. q.sending w _ }

  pub Keeps-send_to_multiple :
      (dests : List String) (p : Packet) → IsQuiet P → Keeps P (send_to_multiple dests p)
  unfolding send_to_multiple
  Keeps-send_to_multiple dests p q = record { at = λ w. (Keeps-send_many w.account dests p q).at w }

  Keeps-next :
      {A B : Type 0} (r : Result A) (f : A → Exec B) (w : World)
      → P w
      → ((a : A) → Keeps P (f a))
      → P (next (r, w) f).1
  Keeps-next (ok a) f w h k = (k a).at w h
  Keeps-next (err e) f w h k = h

  pub Keeps-bind :
      {A B : Type 0} (m : Exec A) (f : A → Exec B)
      → Keeps P m
      → ((a : A) → Keeps P (f a))
      → Keeps P (m >>= f)
  unfolding ◌>>=◌
  Keeps-bind m f km kf = record { at = λ w h. Keeps-next (m w).0 f (m w).1 (km.at w h) kf }

  pub Keeps-swallow : (m : Exec (Unit {0})) → Keeps P m → Keeps P (swallow m)
  unfolding swallow
  Keeps-swallow m k = record { at = λ w h. Keeps-caught P (m w).0 (m w).1 (k.at w h) }

  pub Keeps-if :
      {A : Type 0} (test : Bool) (then_do else_do : Exec A)
      → (test ≡ true → Keeps P then_do)
      → (test ≡ false → Keeps P else_do)
      → Keeps P (if test then then_do else else_do)
  Keeps-if false then_do else_do first second = second refl
  Keeps-if true then_do else_do first second = first refl

  pub Keeps-when : (b : Bool) (m : Exec (Unit {0})) → (b ≡ true → Keeps P m) → Keeps P (when b m)
  unfolding when
  Keeps-when true m k = k refl
  Keeps-when false m k = Keeps-pure tt

  pub Keeps-with_some :
      {A : Type 0} (o : Option A) (f : A → Exec (Unit {0}))
      → ((a : A) → o ≡ some a → Keeps P (f a))
      → Keeps P (with_some o f)
  unfolding with_some
  Keeps-with_some none f k = Keeps-pure tt
  Keeps-with_some (some a) f k = k a refl

  pub Keeps-for_each :
      {A : Type 0} (xs : List A) (f : A → Exec (Unit {0}))
      → ((a : A) → Keeps P (f a))
      → Keeps P (for_each xs f)
  unfolding for_each
  Keeps-for_each [] f k = Keeps-pure tt
  Keeps-for_each (x ∷ xs) f k = Keeps-bind (f x) _ (k x) (λ _. Keeps-for_each xs f k)

pub ruleset keeps_rules = (
  Keeps-pure, Keeps-throw, Keeps-gets, Keeps-my_address, Keeps-require, Keeps-push, Keeps-start,
  Keeps-send_no_reply, Keeps-send_to_multiple, Keeps-bind, Keeps-swallow, Keeps-if, Keeps-when,
  Keeps-with_some, Keeps-for_each,
)

-- A step that returns hands its world to the rest.
pub bind_of_ok :
    {A B : Type 0} (m : Exec A) (f : A → Exec B) (w : World) (a : A)
    → (m w).0 ≡ ok a
    → (m >>= f) w ≡ f a (m w).1
unfolding ◌>>=◌
bind_of_ok m f w a h = rw (h, next)

module _ {A : Type 0} (f : A → Exec (Unit {0}))
    (returns : (a : A) (w : World) → (f a w).0 ≡ ok tt) where
  pub for_each-ok : (xs : List A) (w : World) → (for_each xs f w).0 ≡ ok tt
  unfolding for_each
  for_each-ok [] w = refl
  for_each-ok (x ∷ xs) w = rw (returns x w, next) (for_each-ok xs (f x w).1)

  pub for_each-cons :
      (x : A) (xs : List A) (w : World) → for_each (x ∷ xs) f w ≡ for_each xs f (f x w).1
  unfolding for_each
  for_each-cons x xs w = rw (returns x w, next)
