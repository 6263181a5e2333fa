-- ===== src/Exec/Monad.antt =====
-- A service method is an action: it reads and changes the world, and returns or throws.
use dchat_desktop.Common.{Option, none, some, String, List, [], ◌∷◌, ◌++◌, if◌then◌else◌, Bool}
use dchat_desktop.Types.{Message, MessageOptions, Session, Contact}
use dchat_desktop.Types.Group.{PrivateGroup}
use dchat_desktop.Types.Topic.{Topic, DiscoveredGroup}
use dchat_desktop.Types.Wire.{Packet}
use dchat_desktop.Store.Db.{Db}

-- What a service passes to `pushToRenderer`, with its channel.
pub data Push : Type 0 where
  on_message : Message → Push
  on_session_update : Option Session → Push
  on_session_delete : String → Push
  on_message_burned : String → String → Push
  on_contact_update : Contact → Push
  on_group_update : PrivateGroup → Push
  on_topic_update : Option Topic → Push
  on_topic_delete : String → Push
  on_discovery_update : List DiscoveredGroup → Push
  on_navigate : String → Push
  notification : String → String → Push

-- A download that is started and not awaited; it runs on after the handler has returned.
pub data Task : Type 0 where
  download_image download_audio download_file : Message → MessageOptions → Task

pub record Sent : Type 0 where
  pub dests : List String
  pub packet : Packet

-- `account` is the address of the connected NKN client, and none while it is not connected: the
-- client keeps its address, its key and its state together.
pub record World : Type 0 where
  pub db : Db
  pub account : Option String
  pub sent : List Sent
  pub pushed : List Push
  pub background : List Task

-- The messages of the exceptions that the services throw; `constraint` is better-sqlite3's.
pub data Error : Type 0 where
  not_connected group_not_found no_permission already_member no_invitation : Error
  invalid_signature only_owner_kicks not_a_member service_missing invalid_topic_name network
        constraint type_error :
      Error

pub data Result {ℓ} (A : Type ℓ) : Type ℓ where
  ok : A → Result A
  err : Error → Result A

abbrev pub Exec : Type 0 → Type 0
Exec A = World → Result A × World

unfoldable pub pure : {A : Type 0} → A → Exec A
pure a w = (ok a, w)

unfoldable pub throw : {A : Type 0} → Error → Exec A
throw e w = (err e, w)

abbrev pub next : {A B : Type 0} → Result A × World → (A → Exec B) → Result B × World
next (ok a, w) f = f a w
next (err e, w) f = (err e, w)

unfoldable pub gets : {A : Type 0} → (Db → A) → Exec A
gets f w = (ok (f w.db), w)

unfoldable pub modify : (Db → Db) → Exec (Unit {0})
modify f w = (ok tt, record w { db = f w.db })

abbrev pub committed : World → Option Db → Result (Unit {0}) × World
committed w none = (err constraint, w)
committed w (some db) = (ok tt, record w { db = db })

-- A statement that SQLite may refuse.
unfoldable pub attempt : (Db → Option Db) → Exec (Unit {0})
attempt f w = committed w (f w.db)

unfoldable pub push : Push → Exec (Unit {0})
push p w = (ok tt, record w { pushed = w.pushed ++ p ∷ [] })

unfoldable pub start : Task → Exec (Unit {0})
start t w = (ok tt, record w { background = w.background ++ t ∷ [] })

-- NknClientService.getAddress
unfoldable pub my_address : Exec (Option String)
my_address w = (ok w.account, w)

abbrev pub send_if : Option String → Sent → Exec (Unit {0})
send_if none s w = (err not_connected, w)
send_if (some _) s w = (ok tt, record w { sent = w.sent ++ s ∷ [] })

-- NknClientService.sendMessageNoReply
unfoldable pub send_no_reply : String → Packet → Exec (Unit {0})
send_no_reply dest packet w = send_if w.account (record { dests = dest ∷ []; packet = packet }) w

abbrev pub send_some : List String → Packet → Exec (Unit {0})
send_some [] packet w = (ok tt, w)
send_some (d ∷ ds) packet w = (ok tt, record w { sent = w.sent ++ s ∷ [] })
  where
    s : Sent
    s = record { dests = d ∷ ds; packet = packet }

abbrev pub send_many : Option String → List String → Packet → Exec (Unit {0})
send_many none dests packet w = (err not_connected, w)
send_many (some _) dests packet w = send_some dests packet w

-- NknClientService.sendToMultiple
unfoldable pub send_to_multiple : List String → Packet → Exec (Unit {0})
send_to_multiple dests packet w = send_many w.account dests packet w

-- `if (!x) throw ...`
unfoldable pub require : {A : Type 0} → Option A → Error → Exec A
require none e = throw e
require (some a) e = pure a

abbrev pub caught : Result (Unit {0}) × World → Result (Unit {0}) × World
caught (ok a, w) = (ok a, w)
caught (err e, w) = (ok tt, w)

-- `try { body } catch (err) { console.error(...) }`
unfoldable pub swallow : Exec (Unit {0}) → Exec (Unit {0})
swallow m w = caught (m w)

infixl 5 ◌>>=◌ ◌>>◌
unfoldable pub ◌>>=◌ : {A B : Type 0} → Exec A → (A → Exec B) → Exec B
unfolding pure throw gets modify attempt push start my_address require send_no_reply
    send_to_multiple swallow
◌>>=◌ m f w = next (m w) f

abbrev pub ◌>>◌ : {B : Type 0} → Exec (Unit {0}) → Exec B → Exec B
m >> k = m >>= λ _. k

-- `if (test) { body }`
unfoldable pub when : Bool → Exec (Unit {0}) → Exec (Unit {0})
unfolding ◌>>=◌
when b m = if b then m else pure tt

-- `const x = ...; if (!x) return;`
unfoldable pub with_some : {A : Type 0} → Option A → (A → Exec (Unit {0})) → Exec (Unit {0})
unfolding ◌>>=◌
with_some none f = pure tt
with_some (some a) f = f a

unfoldable pub for_each : {A : Type 0} → List A → (A → Exec (Unit {0})) → Exec (Unit {0})
unfolding ◌>>=◌
for_each [] f = pure tt
for_each (x ∷ xs) f = f x >>= λ _. for_each xs f
