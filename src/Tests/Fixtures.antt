-- ===== src/Tests/Fixtures.antt =====
-- A small world: two direct messages with one contact.
use dchat_desktop.Common.{
  ℕ, String, none, some, List, [], ◌∷◌, ◌≡◌, refl, sym, eq_of_some, true, false,
}
use dchat_desktop.Types.{Message, MessageData, Session, Contact, text, sent, direct}
use dchat_desktop.Types.Wire.{BurnOptions}
use dchat_desktop.Table.{find}
use dchat_desktop.Store.Db.{IsIntact}
use dchat_desktop.Exec.{World, push, on_navigate, IsQuiet, Keeps, keeps_rules}
use dchat_desktop.Chat.Notify.{View}
use dchat_desktop.Chat.Incoming.{Services, ProfileHandlers}
use dchat_desktop.Chat.Incoming.Dedup.{Known, Known-IsQuiet}
use dchat_desktop.Chat.Route.{Fresh}
use dchat_desktop.Chat.Route.Safety.{Respects}
use dchat_desktop.Store.Intact.Rules.{Intact, Intact-IsQuiet}

abbrev pub letter : String → String → Message
letter id session = record {
  id = id;
  session_id = session;
  sender = "alice";
  receiver = "bob";
  content_type = text;
  content = "hi";
  status = sent;
  is_outbound = true;
  nkn_message_id = none;
  options = none;
  local_file_path = none;
  thumbnail_local_file_path = none;
  delete_at = none;
  is_delete = false;
  created_at = 10;
  updated_at = 10;
}

abbrev pub expiring : String → String → Message
expiring id session = record (letter id session) { delete_at = some 50 }

abbrev pub talk : String → Session
talk id = record {
  id = id;
  kind = direct;
  target_address = "bob";
  target_name = "Bob";
  last_message_content = "hi";
  last_message_at = 10;
  unread_count = 0;
  muted = false;
  created_at = 10;
  updated_at = 10;
}

abbrev pub contact_bob : Contact
contact_bob = record {
  address = "bob";
  name = "Bob";
  avatar_uri = none;
  profile_version = none;
  burn_after_seconds = none;
  burn_update_at = some 5;
  created_at = 10;
  updated_at = 10;
}

abbrev pub stored : List Message → List Session → World
stored messages sessions = record {
  db = record {
    messages = messages;
    sessions = sessions;
    contacts = contact_bob ∷ [];
    groups = [];
    members = [];
    topics = [];
    subscribers = [];
    discovered = [];
  };
  account = some "alice";
  sent = [];
  pushed = [];
  background = [];
}

abbrev pub world : World
world = stored (letter "m1" "direct:bob" ∷ expiring "m2" "direct:bob" ∷ []) (talk "direct:bob" ∷ [])

pub world-IsIntact : IsIntact world.db
unfolding find
world-IsIntact = record {
  messages = (refl, (refl, tt));
  sessions = (refl, tt);
  contacts = (refl, tt);
  groups = tt;
  members = tt;
  topics = tt;
  subscribers = tt;
  discovered = tt;
  refers = (refl, (refl, tt));
}

-- A profile service that opens a page for every sender.
abbrev pub profile : ProfileHandlers
profile = record {
  contact_message = λ src d. push (on_navigate src);
  check_and_request = λ src d. push (on_navigate src);
}

abbrev pub services : Services
services = record {
  groups = none;
  topics = none;
  discovery = none;
  profile = some profile;
  voice = none;
  save_inline = none;
  has_images = false;
  has_files = false;
}

opens-Keeps :
    {P : World → Type 0} (quiet : IsQuiet P) (q : ProfileHandlers)
    → profile ≡ q
    → (src : String) (d : MessageData)
    → Keeps P (q.contact_message src d) × Keeps P (q.check_and_request src d)
opens-Keeps quiet q e src d = rw (sym e) (search (keeps_rules, quiet) depth 6)

pub services-Known :
    (id : String) (d : MessageData) (p : ProfileHandlers)
    → services.profile ≡ some p
    → Keeps (Known id) (p.check_and_request "bob" d)
services-Known id d p e = (opens-Keeps (Known-IsQuiet id) p (eq_of_some _ _ e) "bob" d).1

pub services-Respects : Respects Intact services
services-Respects = record {
  group_control = λ g e. cc;
  group_message = λ g e. cc;
  topic_control = λ g e. cc;
  topic_message = λ g e. cc;
  broadcast = λ g e. cc;
  announcement = λ g e. cc;
  contact_message = λ p e src d. (opens-Keeps Intact-IsQuiet p (eq_of_some _ _ e) src d).0;
  check_and_request = λ p e src d. (opens-Keeps Intact-IsQuiet p (eq_of_some _ _ e) src d).1;
  voice = λ g e. cc;
}

abbrev pub hello : MessageData
hello = record {
  id = "m3";
  content_type = some text;
  content = some "hello";
  options = none;
  topic = none;
  group_id = none;
  target_id = none;
  read_ids = none;
  timestamp = some 60;
}

abbrev pub background_view : View
background_view = record { focused = false; active_session = none; muted_globally = false }

abbrev pub focused_view : View
focused_view = record { focused = true; active_session = some "direct:bob"; muted_globally = false }

abbrev pub fresh : Fresh
fresh = record { first_id = "f1"; second_id = "f2"; now = 70 }

abbrev pub burn_setting : ℕ → ℕ → BurnOptions
burn_setting seconds at = record {
  option_type = 0;
  delete_after_seconds = seconds;
  update_burn_after_at = at;
}
