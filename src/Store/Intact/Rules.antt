-- ===== src/Store/Intact/Rules.antt =====
-- The same, as rules for actions: with them `search` shows that a service method keeps the database
-- intact.
use dchat_desktop.Common.{ℕ, String, Bool, Option, some, List, ◌≡◌, refl, string_eq, pair_eq}
use dchat_desktop.Common.Int.{ℤ}
use dchat_desktop.Types.{Message, MessageOptions, Status, Session, Contact}
use dchat_desktop.Types.Group.{PrivateGroup, Member}
use dchat_desktop.Table.{IsKeyed, update-IsKeyed, upsert-IsKeyed}
use dchat_desktop.Store.Db.{Db, IsIntact, contact_key, group_key, member_key}
use dchat_desktop.Store.Messages
use dchat_desktop.Store.Sessions
use dchat_desktop.Store.Contacts
use dchat_desktop.Store.Groups
use dchat_desktop.Store.Members
use dchat_desktop.Store.Intact.Tables.{
  set_row-IsIntact, insert-IsIntact, session_row-IsIntact, session_upsert-IsIntact,
  session_delete-IsIntact, update_session_id-IsIntact, status_batch-IsIntact,
}
use dchat_desktop.Exec.{World, modify, attempt, Keeps, IsQuiet, Keeps-modify, Keeps-attempt}

pub record Intact (w : World) : Type 0 where
  pub db : IsIntact w.db

pub Intact-IsQuiet : IsQuiet Intact
Intact-IsQuiet = record {
  sending = λ w s h. record { db = h.db };
  pushing = λ w p h. record { db = h.db };
  starting = λ w t h. record { db = h.db };
}

pub modify-Intact :
    (f : Db → Db) → ((db : Db) → IsIntact db → IsIntact (f db)) → Keeps Intact (modify f)
modify-Intact f h = Keeps-modify f (λ w v. record { db = h w.db v.db })

pub attempt-Intact :
    (f : Db → Option Db)
    → ((db db' : Db) → IsIntact db → f db ≡ some db' → IsIntact db')
    → Keeps Intact (attempt f)
attempt-Intact f h = Keeps-attempt f (λ w db v e. record { db = h w.db db v.db e })

pub update_status-Intact :
    (id : String) (s : Status) (now : ℕ) → Keeps Intact (modify (Messages.update_status id s now))
unfolding Messages.update_status
update_status-Intact id s now =
    modify-Intact _ (λ db v. set_row-IsIntact _ _ db (λ m. refl) (λ m. refl) v)

pub update_local_file_path-Intact :
    (id path : String) (now : ℕ)
    → Keeps Intact (modify (Messages.update_local_file_path id path now))
unfolding Messages.update_local_file_path
update_local_file_path-Intact id path now =
    modify-Intact _ (λ db v. set_row-IsIntact _ _ db (λ m. refl) (λ m. refl) v)

pub update_thumbnail_local_file_path-Intact :
    (id path : String) (now : ℕ)
    → Keeps Intact (modify (Messages.update_thumbnail_local_file_path id path now))
unfolding Messages.update_thumbnail_local_file_path
update_thumbnail_local_file_path-Intact id path now =
    modify-Intact _ (λ db v. set_row-IsIntact _ _ db (λ m. refl) (λ m. refl) v)

pub update_options-Intact :
    (id : String) (o : MessageOptions) (now : ℕ)
    → Keeps Intact (modify (Messages.update_options id o now))
unfolding Messages.update_options
update_options-Intact id o now =
    modify-Intact _ (λ db v. set_row-IsIntact _ _ db (λ m. refl) (λ m. refl) v)

pub update_content-Intact :
    (id content : String) (now : ℕ) → Keeps Intact (modify (Messages.update_content id content now))
unfolding Messages.update_content
update_content-Intact id content now =
    modify-Intact _ (λ db v. set_row-IsIntact _ _ db (λ m. refl) (λ m. refl) v)

pub update_delete_at-Intact :
    (id : String) (at now : ℕ) → Keeps Intact (modify (Messages.update_delete_at id at now))
unfolding Messages.update_delete_at
update_delete_at-Intact id at now =
    modify-Intact _ (λ db v. set_row-IsIntact _ _ db (λ m. refl) (λ m. refl) v)

pub mark_deleted-Intact :
    (id : String) (now : ℕ) → Keeps Intact (modify (Messages.mark_deleted id now))
unfolding Messages.mark_deleted
mark_deleted-Intact id now =
    modify-Intact _ (λ db v. set_row-IsIntact _ _ db (λ m. refl) (λ m. refl) v)

pub insert-Intact : (m : Message) → Keeps Intact (attempt (Messages.insert m))
insert-Intact m = attempt-Intact _ (insert-IsIntact m)

pub update_session_id-Intact :
    (old new : String) (now : ℕ) → Keeps Intact (attempt (Messages.update_session_id old new now))
update_session_id-Intact old new now =
    attempt-Intact _ (λ db db' v e. update_session_id-IsIntact db v old new now db' e)

pub status_batch-Intact :
    (ids : List String) (s : Status) (now : ℕ)
    → Keeps Intact (modify (Messages.update_status_batch ids s now))
status_batch-Intact ids s now = modify-Intact _ (λ db v. status_batch-IsIntact db v ids s now)

pub upsert_session-Intact : (s : Session) → Keeps Intact (modify (Sessions.upsert s))
upsert_session-Intact s = modify-Intact _ (λ db v. session_upsert-IsIntact db v s)

pub delete_session-Intact : (id : String) → Keeps Intact (modify (Sessions.delete_by_id id))
delete_session-Intact id = modify-Intact _ (λ db v. session_delete-IsIntact db v id)

pub update_last_message-Intact :
    (id content : String) (at now : ℕ)
    → Keeps Intact (modify (Sessions.update_last_message id content at now))
unfolding Sessions.update_last_message
update_last_message-Intact id content at now =
    modify-Intact _ (λ db v. session_row-IsIntact db v _ _ (λ s. refl))

pub increment_unread-Intact :
    (id : String) (now : ℕ) → Keeps Intact (modify (Sessions.increment_unread id now))
unfolding Sessions.increment_unread
increment_unread-Intact id now = modify-Intact _ (λ db v. session_row-IsIntact db v _ _ (λ s. refl))

pub reset_unread-Intact :
    (id : String) (now : ℕ) → Keeps Intact (modify (Sessions.reset_unread id now))
unfolding Sessions.reset_unread
reset_unread-Intact id now = modify-Intact _ (λ db v. session_row-IsIntact db v _ _ (λ s. refl))

pub update_target_name-Intact :
    (id name : String) (now : ℕ) → Keeps Intact (modify (Sessions.update_target_name id name now))
unfolding Sessions.update_target_name
update_target_name-Intact id name now =
    modify-Intact _ (λ db v. session_row-IsIntact db v _ _ (λ s. refl))

pub set_muted-Intact :
    (id : String) (muted : Bool) (now : ℕ) → Keeps Intact (modify (Sessions.set_muted id muted now))
unfolding Sessions.set_muted
set_muted-Intact id muted now = modify-Intact _ (λ db v. session_row-IsIntact db v _ _ (λ s. refl))

with_contacts :
    (db : Db) (rows : List Contact)
    → IsIntact db
    → IsKeyed contact_key rows
    → IsIntact (record db { contacts = rows })
with_contacts db rows v k = record {
  messages = v.messages;
  sessions = v.sessions;
  contacts = k;
  groups = v.groups;
  members = v.members;
  topics = v.topics;
  subscribers = v.subscribers;
  discovered = v.discovered;
  refers = v.refers;
}

with_groups :
    (db : Db) (rows : List PrivateGroup)
    → IsIntact db
    → IsKeyed group_key rows
    → IsIntact (record db { groups = rows })
with_groups db rows v k = record {
  messages = v.messages;
  sessions = v.sessions;
  contacts = v.contacts;
  groups = k;
  members = v.members;
  topics = v.topics;
  subscribers = v.subscribers;
  discovered = v.discovered;
  refers = v.refers;
}

with_members :
    (db : Db) (rows : List Member)
    → IsIntact db
    → IsKeyed member_key rows
    → IsIntact (record db { members = rows })
with_members db rows v k = record {
  messages = v.messages;
  sessions = v.sessions;
  contacts = v.contacts;
  groups = v.groups;
  members = k;
  topics = v.topics;
  subscribers = v.subscribers;
  discovered = v.discovered;
  refers = v.refers;
}

pub upsert_contact-Intact : (r : Contact) → Keeps Intact (modify (Contacts.upsert r))
unfolding Contacts.upsert
upsert_contact-Intact r = modify-Intact _ (λ db v. with_contacts db _ v (
    upsert-IsKeyed contact_key Contacts.merge (Contacts.row_of r) db.contacts (λ x y. refl)
      v.contacts))

pub upsert_group-Intact : (r : PrivateGroup) → Keeps Intact (modify (Groups.upsert r))
unfolding Groups.upsert
upsert_group-Intact r = modify-Intact _ (λ db v.
    with_groups db _ v (upsert-IsKeyed group_key Groups.merge r db.groups (λ x y. refl) v.groups))

pub upsert_member-Intact : (r : Member) → Keeps Intact (modify (Members.upsert r))
unfolding Members.upsert
upsert_member-Intact r = modify-Intact _ (λ db v.
    with_members db _ v
      (upsert-IsKeyed member_key Members.merge r db.members (λ x y. refl) v.members))

pub update_burn_options-Intact :
    (address : String) (seconds at now : ℕ)
    → Keeps Intact (modify (Contacts.update_burn_options address seconds at now))
unfolding Contacts.update_burn_options Contacts.set_row
update_burn_options-Intact address seconds at now = modify-Intact _ (λ db v.
    with_contacts db _ v (update-IsKeyed contact_key _ _ db.contacts (λ r. refl) v.contacts))

pub update_profile-Intact :
    (address name : String) (avatar_uri : Option String) (version : String) (now : ℕ)
    → Keeps Intact (modify (Contacts.update_profile address name avatar_uri version now))
unfolding Contacts.update_profile Contacts.set_row
update_profile-Intact address name avatar_uri version now = modify-Intact _ (λ db v.
    with_contacts db _ v (update-IsKeyed contact_key _ _ db.contacts (λ r. refl) v.contacts))

pub set_joined-Intact :
    (id : String) (joined : Bool) (now : ℕ)
    → Keeps Intact (modify (Groups.set_joined id joined now))
unfolding Groups.set_joined Groups.set_row
set_joined-Intact id joined now =
    modify-Intact _
      (λ db v. with_groups db _ v (update-IsKeyed group_key _ _ db.groups (λ r. refl) v.groups))

pub set_count-Intact :
    (id : String) (count now : ℕ) → Keeps Intact (modify (Groups.set_count id count now))
unfolding Groups.set_count Groups.set_row
set_count-Intact id count now =
    modify-Intact _
      (λ db v. with_groups db _ v (update-IsKeyed group_key _ _ db.groups (λ r. refl) v.groups))

pub set_version-Intact :
    (id version : String) (now : ℕ) → Keeps Intact (modify (Groups.set_version id version now))
unfolding Groups.set_version Groups.set_row
set_version-Intact id version now =
    modify-Intact _
      (λ db v. with_groups db _ v (update-IsKeyed group_key _ _ db.groups (λ r. refl) v.groups))

pub set_signature-Intact :
    (id signature : String) (now : ℕ)
    → Keeps Intact (modify (Groups.set_signature id signature now))
unfolding Groups.set_signature Groups.set_row
set_signature-Intact id signature now =
    modify-Intact _
      (λ db v. with_groups db _ v (update-IsKeyed group_key _ _ db.groups (λ r. refl) v.groups))

pub update_permission-Intact :
    (group_id invitee : String) (p : ℤ)
    → Keeps Intact (modify (Members.update_permission group_id invitee p))
unfolding Members.update_permission
update_permission-Intact group_id invitee p =
    modify-Intact _
      (λ db v. with_members db _ v (update-IsKeyed member_key _ _ db.members (λ r. refl) v.members))

pub ruleset intact_rules = (
  Intact-IsQuiet, update_status-Intact, update_local_file_path-Intact,
  update_thumbnail_local_file_path-Intact, update_options-Intact, update_content-Intact,
  update_delete_at-Intact, mark_deleted-Intact, insert-Intact, update_session_id-Intact,
  status_batch-Intact, upsert_session-Intact, delete_session-Intact, update_last_message-Intact,
  increment_unread-Intact, reset_unread-Intact, update_target_name-Intact, set_muted-Intact,
  upsert_contact-Intact, upsert_group-Intact, upsert_member-Intact, update_burn_options-Intact,
  update_profile-Intact, set_joined-Intact, set_count-Intact, set_version-Intact,
  set_signature-Intact, update_permission-Intact,
)
