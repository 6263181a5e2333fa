-- ===== src/Exec/Landing.antt =====
-- What holds after an action, whether it returns or throws.
use dchat_desktop.Store.Db.{Db}
use dchat_desktop.Exec.Monad.{World, Result, ok, err, Exec, next, ◌>>=◌, gets, modify}
use dchat_desktop.Exec.Laws.{Keeps}
use dchat_desktop.Exec.Reach.{Reaches}

-- `m` leaves a world of which `Q` holds.
pub record Lands {A : Type 0} (Q : World → Type 0) (m : Exec A) : Type 0 where
  pub at : (w : World) → Q (m w).1

Lands-next :
    {A B : Type 0} (Q : World → Type 0) (r : Result A) (f : A → Exec B) (w : World)
    → Q w
    → ((a : A) → Keeps Q (f a))
    → Q (next (r, w) f).1
Lands-next Q (ok a) f w q k = (k a).at w q
Lands-next Q (err e) f w q k = q

module _ {Q : World → Type 0} {B : Type 0} where
  pub Lands-first :
      {A : Type 0} (m : Exec A) (f : A → Exec B)
      → Lands Q m
      → ((a : A) → Keeps Q (f a))
      → Lands Q (m >>= f)
  unfolding ◌>>=◌
  Lands-first m f h k = record { at = λ w. Lands-next Q (m w).0 f (m w).1 (h.at w) k }

  pub Lands-gets :
      {A : Type 0} (g : Db → A) (f : A → Exec B)
      → ((a : A) → Lands Q (f a))
      → Lands Q (gets g >>= f)
  unfolding ◌>>=◌
  Lands-gets g f h = record { at = λ w. (h (g w.db)).at w }

  pub Lands-after_modify :
      (g : Db → Db) (f : Unit {0} → Exec B)
      → ((a : Unit {0}) → Lands Q (f a))
      → Lands Q (modify g >>= f)
  unfolding ◌>>=◌
  Lands-after_modify g f h = record { at = λ w. (h tt).at (record w { db = g w.db }) }

pub Lands-modify :
    {Q : World → Type 0} (g : Db → Db)
    → ((w : World) → Q (record w { db = g w.db }))
    → Lands Q (modify g)
unfolding modify
Lands-modify g h = record { at = h }

pub ruleset lands_rules = (Lands-first, Lands-gets, Lands-after_modify)

pub Reaches-of_Lands : {Q : World → Type 0} {A : Type 0} (m : Exec A) → Lands Q m → Reaches Q m
Reaches-of_Lands m h = record { at = λ w a e. h.at w }

-- The rest of an action keeps what its first step has reached in this world.
pub holds_after :
    {Q : World → Type 0} {A B : Type 0} (m : Exec A) (f : A → Exec B) (w : World)
    → Q (m w).1
    → ((a : A) → Keeps Q (f a))
    → Q ((m >>= f) w).1
unfolding ◌>>=◌
holds_after {Q} m f w q k = Lands-next Q (m w).0 f (m w).1 q k
