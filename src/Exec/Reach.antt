-- ===== src/Exec/Reach.antt =====
-- What holds once an action has returned.
use dchat_desktop.Common.{Option, none, some, ◌≡◌, refl}
use dchat_desktop.Store.Db.{Db}
use dchat_desktop.Exec.Monad.{World, Result, ok, err, Exec, next, ◌>>=◌, attempt, committed}
use dchat_desktop.Exec.Laws.{Keeps}

-- If `m` returns, `Q` holds of the world that it leaves.
pub record Reaches {A : Type 0} (Q : World → Type 0) (m : Exec A) : Type 0 where
  pub at : (w : World) (a : A) → (m w).0 ≡ ok a → Q (m w).1

Reaches-next :
    {A B : Type 0} (Q : World → Type 0) (r : Result A) (f : A → Exec B) (w : World) (b : B)
    → ((a : A) → r ≡ ok a → (f a w).0 ≡ ok b → Q (f a w).1)
    → (next (r, w) f).0 ≡ ok b
    → Q (next (r, w) f).1
Reaches-next Q (ok a) f w b h e = h a refl e
Reaches-next Q (err x) f w b h e = cc

module _ {Q : World → Type 0} {A B : Type 0} (m : Exec A) (f : A → Exec B) where
  pub Reaches-first : Reaches Q m → ((a : A) → Keeps Q (f a)) → Reaches Q (m >>= f)
  unfolding ◌>>=◌
  Reaches-first h k = record {
    at = λ w b. Reaches-next Q (m w).0 f (m w).1 b (λ a e _. (k a).at (m w).1 (h.at w a e));
  }

  pub Reaches-then : ((a : A) → Reaches Q (f a)) → Reaches Q (m >>= f)
  unfolding ◌>>=◌
  Reaches-then h = record {
    at = λ w b. Reaches-next Q (m w).0 f (m w).1 b (λ a _. (h a).at (m w).1 b);
  }

Reaches-committed :
    (Q : World → Type 0) (w : World) (o : Option Db) (a : Unit {0})
    → ((db : Db) → o ≡ some db → Q (record w { db = db }))
    → (committed w o).0 ≡ ok a
    → Q (committed w o).1
Reaches-committed Q w none a h e = cc
Reaches-committed Q w (some db) a h e = h db refl

pub Reaches-attempt :
    {Q : World → Type 0} (f : Db → Option Db)
    → ((w : World) (db : Db) → f w.db ≡ some db → Q (record w { db = db }))
    → Reaches Q (attempt f)
unfolding attempt
Reaches-attempt {Q} f h = record { at = λ w a. Reaches-committed Q w (f w.db) a (h w) }

pub ruleset reach_rules = (Reaches-first, Reaches-then)
