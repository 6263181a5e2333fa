-- ===== src/Store/Intact/Topics.antt =====
-- The statements on topics, subscribers and discovered groups, as rules for actions.
use dchat_desktop.Common.{
  ℕ, String, Option, none, some, List, [], ◌∷◌, ◌++◌, ◌≡◌, refl, subst, string_eq, pair_eq,
  eq_of_some,
}
use dchat_desktop.Types.Topic.{Topic, TopicSubscriber, DiscoveredGroup}
use dchat_desktop.Table.{
  find, insert, delete, IsKeyed, update-IsKeyed, upsert-IsKeyed, append-IsKeyed, delete-IsKeyed,
  delete_other-IsKeyed, select-IsKeyed,
}
use dchat_desktop.Store.Db.{Db, IsIntact, topic_key, subscriber_key, discovered_key}
use dchat_desktop.Store.Messages
use dchat_desktop.Store.Topics
use dchat_desktop.Store.Subscribers
use dchat_desktop.Store.Discovered
use dchat_desktop.Store.Intact.Tables.{delete_by_session_id-IsIntact}
use dchat_desktop.Store.Intact.Rules.{Intact, modify-Intact, attempt-Intact}
use dchat_desktop.Exec.{modify, attempt, Keeps}

module _ (db : Db) (v : IsIntact db) where
  with_topics :
      (rows : List Topic) → IsKeyed topic_key rows → IsIntact (record db { topics = rows })
  with_topics rows k = record {
    messages = v.messages;
    sessions = v.sessions;
    contacts = v.contacts;
    groups = v.groups;
    members = v.members;
    topics = k;
    subscribers = v.subscribers;
    discovered = v.discovered;
    refers = v.refers;
  }

  with_subscribers :
      (rows : List TopicSubscriber)
      → IsKeyed subscriber_key rows
      → IsIntact (record db { subscribers = rows })
  with_subscribers rows k = record {
    messages = v.messages;
    sessions = v.sessions;
    contacts = v.contacts;
    groups = v.groups;
    members = v.members;
    topics = v.topics;
    subscribers = k;
    discovered = v.discovered;
    refers = v.refers;
  }

  with_discovered :
      (rows : List DiscoveredGroup)
      → IsKeyed discovered_key rows
      → IsIntact (record db { discovered = rows })
  with_discovered rows k = record {
    messages = v.messages;
    sessions = v.sessions;
    contacts = v.contacts;
    groups = v.groups;
    members = v.members;
    topics = v.topics;
    subscribers = v.subscribers;
    discovered = k;
    refers = v.refers;
  }

pub upsert_topic-Intact : (t : Topic) → Keeps Intact (modify (Topics.upsert t))
unfolding Topics.upsert
upsert_topic-Intact t = modify-Intact _ (λ db v.
    with_topics db v _ (upsert-IsKeyed topic_key Topics.merge t db.topics (λ x y. refl) v.topics))

pub set_member_count-Intact :
    (id : String) (count now : ℕ) → Keeps Intact (modify (Topics.set_member_count id count now))
unfolding Topics.set_member_count Topics.set_row
set_member_count-Intact id count now =
    modify-Intact _
      (λ db v. with_topics db v _ (update-IsKeyed topic_key _ _ db.topics (λ t. refl) v.topics))

pub delete_topic-Intact : (id : String) → Keeps Intact (modify (Topics.delete_by_id id))
unfolding Topics.delete_by_id
delete_topic-Intact id =
    modify-Intact _ (λ db v. with_topics db v _ (delete-IsKeyed topic_key id db.topics v.topics))

pub upsert_subscriber-Intact :
    (topic_id address : String) (now : ℕ)
    → Keeps Intact (modify (Subscribers.upsert topic_id address now))
unfolding Subscribers.upsert
upsert_subscriber-Intact topic_id address now = modify-Intact _ (λ db v.
    with_subscribers db v _
      (upsert-IsKeyed subscriber_key Subscribers.keep _ db.subscribers (λ x y. refl) v.subscribers))

pub delete_subscriber-Intact :
    (topic_id address : String)
    → Keeps Intact (modify (Subscribers.delete_by_topic_and_address topic_id address))
unfolding Subscribers.delete_by_topic_and_address
delete_subscriber-Intact topic_id address =
    modify-Intact _ (λ db v.
      with_subscribers db v _ (delete-IsKeyed subscriber_key _ db.subscribers v.subscribers))

pub delete_subscribers-Intact :
    (topic_id : String) → Keeps Intact (modify (Subscribers.delete_by_topic_id topic_id))
unfolding Subscribers.delete_by_topic_id
delete_subscribers-Intact topic_id = modify-Intact _ (λ db v. with_subscribers db v _ (
    delete_other-IsKeyed subscriber_key Subscribers.by_topic topic_id db.subscribers v.subscribers))

-- A row that is inserted is new, and no other row changes.
insert-IsKeyed :
    (r : TopicSubscriber) (rows rows' : List TopicSubscriber)
    → insert subscriber_key r rows ≡ some rows'
    → IsKeyed subscriber_key rows
    → IsKeyed subscriber_key rows'
unfolding insert
insert-IsKeyed r rows rows' e v = go (find subscriber_key (subscriber_key r) rows) refl e
  where
    go :
        (o : Option TopicSubscriber)
        → find subscriber_key (subscriber_key r) rows ≡ o
        → elim o [ none ↦ some (rows ++ r ∷ []) | some _ ↦ none ] ≡ some rows'
        → IsKeyed subscriber_key rows'
    go none new e =
        subst (IsKeyed subscriber_key) (eq_of_some _ _ e)
          (append-IsKeyed subscriber_key r rows new v)
    go (some x) old e = cc

insert_all-IsKeyed :
    (topic_id : String) (now : ℕ) (addresses : List String) (rows rows' : List TopicSubscriber)
    → Subscribers.insert_all topic_id now addresses rows ≡ some rows'
    → IsKeyed subscriber_key rows
    → IsKeyed subscriber_key rows'
unfolding Subscribers.insert_all
insert_all-IsKeyed topic_id now [] rows rows' e v =
    subst (IsKeyed subscriber_key) (eq_of_some _ _ e) v
insert_all-IsKeyed topic_id now (a ∷ more) rows rows' e v =
    go (insert subscriber_key (Subscribers.row topic_id now a) rows) refl e
      (λ next. insert_all-IsKeyed topic_id now more next rows')
  where
    go :
        (o : Option (List TopicSubscriber))
        → insert subscriber_key (Subscribers.row topic_id now a) rows ≡ o
        → elim o [ none ↦ none | some next ↦ Subscribers.insert_all topic_id now more next ]
          ≡ some rows'
        → ((next : List TopicSubscriber)
            → Subscribers.insert_all topic_id now more next ≡ some rows'
            → IsKeyed subscriber_key next
            → IsKeyed subscriber_key rows')
        → IsKeyed subscriber_key rows'
    go none h e rest = cc
    go (some next) h e rest = rest next e (insert-IsKeyed _ rows next h v)

replace_all-IsIntact :
    (topic_id : String) (addresses : List String) (now : ℕ) (db db' : Db)
    → IsIntact db
    → Subscribers.replace_all topic_id addresses now db ≡ some db'
    → IsIntact db'
unfolding Subscribers.replace_all
replace_all-IsIntact topic_id addresses now db db' v e =
    go
      (Subscribers.insert_all topic_id now addresses
        (delete Subscribers.by_topic topic_id db.subscribers))
      refl e
  where
    go :
        (o : Option (List TopicSubscriber))
        → Subscribers.insert_all topic_id now addresses
            (delete Subscribers.by_topic topic_id db.subscribers)
          ≡ o
        → Subscribers.with_rows db o ≡ some db'
        → IsIntact db'
    go none h e = cc
    go (some rows) h e = subst IsIntact (eq_of_some _ _ e) (
        with_subscribers db v rows (
          insert_all-IsKeyed topic_id now addresses _ rows h (
            delete_other-IsKeyed subscriber_key Subscribers.by_topic topic_id db.subscribers
              v.subscribers)))

pub replace_all-Intact :
    (topic_id : String) (addresses : List String) (now : ℕ)
    → Keeps Intact (attempt (Subscribers.replace_all topic_id addresses now))
replace_all-Intact topic_id addresses now =
    attempt-Intact _ (replace_all-IsIntact topic_id addresses now)

pub delete_by_session_id-Intact :
    (session_id : String) → Keeps Intact (modify (Messages.delete_by_session_id session_id))
delete_by_session_id-Intact session_id =
    modify-Intact _ (λ db v. delete_by_session_id-IsIntact db v session_id)

pub upsert_discovered-Intact : (g : DiscoveredGroup) → Keeps Intact (modify (Discovered.upsert g))
unfolding Discovered.upsert
upsert_discovered-Intact g = modify-Intact _ (λ db v.
    with_discovered db v _
      (upsert-IsKeyed discovered_key Discovered.merge _ db.discovered (λ x y. refl) v.discovered))

pub delete_stale-Intact :
    (older_than_ms now : ℕ) → Keeps Intact (modify (Discovered.delete_stale older_than_ms now))
unfolding Discovered.delete_stale
delete_stale-Intact older_than_ms now =
    modify-Intact _
      (λ db v. with_discovered db v _ (select-IsKeyed discovered_key _ db.discovered v.discovered))

pub update_subscriber_count-Intact :
    (name : String) (count now : ℕ)
    → Keeps Intact (modify (Discovered.update_subscriber_count name count now))
unfolding Discovered.update_subscriber_count
update_subscriber_count-Intact name count now = modify-Intact _ (λ db v.
    with_discovered db v _
      (update-IsKeyed discovered_key _ _ db.discovered (λ g. refl) v.discovered))

pub ruleset topic_intact_rules = (
  upsert_topic-Intact, set_member_count-Intact, delete_topic-Intact, upsert_subscriber-Intact,
  delete_subscriber-Intact, delete_subscribers-Intact, replace_all-Intact,
  delete_by_session_id-Intact, upsert_discovered-Intact, delete_stale-Intact,
  update_subscriber_count-Intact,
)
