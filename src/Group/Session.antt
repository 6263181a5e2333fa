-- ===== src/Group/Session.antt =====
-- private-group-service.ts: the session of a group, the notices in it, and what the renderer is told.
use dchat_desktop.Common.{ℕ, String, Bool, false, not, Option, none, some}
use dchat_desktop.Common.Text.{◌++◌, prefix, short}
use dchat_desktop.Types.{
  Message, MessageOptions, ContentType, Status, Session, Contact, private_group,
}
use dchat_desktop.Types.Group.{PrivateGroup}
use dchat_desktop.Store.Db.{is_some}
use dchat_desktop.Store.Messages
use dchat_desktop.Store.Sessions
use dchat_desktop.Store.Groups
use dchat_desktop.Group.Payload.{◌or_string◌}
use dchat_desktop.Exec.{
  Exec, ◌>>=◌, ◌>>◌, gets, modify, attempt, push, when, with_some, on_message, on_session_update,
  on_group_update,
}

-- `privateGroup:${groupId}`
abbrev pub group_session : String → String
group_session group_id = "privateGroup:" ++ group_id

abbrev group_name : Option PrivateGroup → Option String
group_name none = none
group_name (some g) = some g.name

abbrev pub new_session : String → String → Option PrivateGroup → ℕ → Session
new_session group_id name group now = record {
  id = group_session group_id;
  kind = private_group;
  target_address = group_id;
  target_name = some name or_string group_name group or_string prefix 12 group_id ++ "...";
  last_message_content = "";
  last_message_at = now;
  unread_count = 0;
  muted = false;
  created_at = now;
  updated_at = now;
}

unfoldable pub get_or_create_group_session : String → String → ℕ → Exec (Unit {0})
unfolding ◌>>=◌ when
get_or_create_group_session group_id name now = do
  existing ← gets (Sessions.find_by_id (group_session group_id))
  when (not (is_some existing)) do
    group ← gets (Groups.find_by_id group_id)
    modify (Sessions.upsert (new_session group_id name group now))

-- `contact?.name ?? src.substring(0, 8) + "..."`
abbrev pub sender_name : Option Contact → String → String
sender_name none src = short src
sender_name (some c) src = c.name

-- A message that the service writes itself.
abbrev pub notice :
    (id group_id sender receiver : String)
    → ContentType
    → (content : String) → Status
    → (is_outbound : Bool) → Option MessageOptions
    → (created_at now : ℕ) → Message
notice id group_id sender receiver content_type content status is_outbound options created_at now =
    record {
      id = id;
      session_id = group_session group_id;
      sender = sender;
      receiver = receiver;
      content_type = content_type;
      content = content;
      status = status;
      is_outbound = is_outbound;
      nkn_message_id = none;
      options = options;
      local_file_path = none;
      thumbnail_local_file_path = none;
      delete_at = none;
      is_delete = false;
      created_at = created_at;
      updated_at = now;
    }

unfoldable pub push_session : String → Exec (Unit {0})
unfolding ◌>>=◌
push_session group_id = do
  s ← gets (Sessions.find_by_id (group_session group_id))
  push (on_session_update s)

unfoldable pub push_group : String → Exec (Unit {0})
unfolding ◌>>=◌ with_some
push_group group_id = do
  updated ← gets (Groups.find_by_id group_id)
  with_some updated λ g. push (on_group_update g)

-- A notice from the network goes into the session unless its id is known.
unfoldable pub announce : String → Message → (preview : String) → ℕ → Exec (Unit {0})
unfolding ◌>>=◌ when push_session
announce group_id m preview now = do
  known ← gets (Messages.find_by_id m.id)
  when (not (is_some known)) do
    attempt (Messages.insert m)
    modify (Sessions.update_last_message (group_session group_id) preview m.created_at now)
    push (on_message m)
    push_session group_id
