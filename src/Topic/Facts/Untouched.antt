-- ===== src/Topic/Facts/Untouched.antt =====
-- topic-service.ts: the methods that touch neither the topics nor their subscribers.
use dchat_desktop.Common.{ℕ, String, Bool, Option, none, some, List, [], ◌∷◌, string_eq}
use dchat_desktop.Types.{Message, MessageData, MessageOptions, ContentType, Status}
use dchat_desktop.Types.Topic.{Topic, TopicSubscriber}
use dchat_desktop.Store.Messages
use dchat_desktop.Chat.Notify.{View, show_notification}
use dchat_desktop.Group.Messages.{Media, try_catch, or_try, finish_with, send_to_all}
use dchat_desktop.Group.Owner.{throw_if}
use dchat_desktop.Group.Uploads.{Uploaded, store_uploaded}
use dchat_desktop.Topic.Joining.{announce_join}
use dchat_desktop.Topic.Messages.{
  send_topic_message, fetch_topic_media, show_topic_message, store_topic_message,
  handle_topic_message,
}
use dchat_desktop.Topic.Uploads.{
  begin_topic_media, begin_topic_upload, send_topic_uploaded, finish_topic_upload,
  finish_topic_audio,
}
use dchat_desktop.Topic.Facts.{About, about_rules}
use dchat_desktop.Exec.{Exec, World, Result, ok, err, modify, Keeps, Keeps-modify}

module _ (R : List Topic → List TopicSubscriber → Type 0) where
  update_options-About :
      (id : String) (o : MessageOptions) (now : ℕ)
      → Keeps (About R) (modify (Messages.update_options id o now))
  unfolding Messages.update_options Messages.set_row
  update_options-About id o now = Keeps-modify _ (λ w v. record { tables = v.tables })

  update_content-About :
      (id content : String) (now : ℕ)
      → Keeps (About R) (modify (Messages.update_content id content now))
  unfolding Messages.update_content Messages.set_row
  update_content-About id content now = Keeps-modify _ (λ w v. record { tables = v.tables })

  update_thumbnail-About :
      (id path : String) (now : ℕ)
      → Keeps (About R) (modify (Messages.update_thumbnail_local_file_path id path now))
  unfolding Messages.update_thumbnail_local_file_path Messages.set_row
  update_thumbnail-About id path now = Keeps-modify _ (λ w v. record { tables = v.tables })

  show_notification-About :
      (view : View) (title body session : String)
      → Keeps (About R) (show_notification view title body session)
  unfolding show_notification
  show_notification-About view title body session = search about_rules depth 15

  fetch_topic_media-About :
      (media : Media) (d : MessageData) (m : Message) (now : ℕ)
      → Keeps (About R) (fetch_topic_media media d m now)
  unfolding fetch_topic_media
  fetch_topic_media-About media d m now = search about_rules depth 20

  show_topic_message-About :
      (media : Media) (name by : String) (d : MessageData) (m : Message) (now : ℕ)
      → Keeps (About R) (show_topic_message media name by d m now)
  unfolding show_topic_message
  show_topic_message-About media name by d m now =
      search (about_rules, fetch_topic_media-About, show_notification-About) depth 30

  store_topic_message-About :
      (media : Media) (name src : String) (d : MessageData) (now : ℕ)
      → Keeps (About R) (store_topic_message media name src d now)
  unfolding store_topic_message
  store_topic_message-About media name src d now =
      search (about_rules, show_topic_message-About) depth 30

  pub handle_topic_message-About :
      (media : Media) (src : String) (d : MessageData) (now : ℕ)
      → Keeps (About R) (handle_topic_message media src d now)
  unfolding handle_topic_message
  handle_topic_message-About media src d now =
      search (about_rules, store_topic_message-About) depth 20

  pub announce_join-About :
      (name own id : String) (now : ℕ) → Keeps (About R) (announce_join name own id now)
  unfolding announce_join
  announce_join-About name own id now = search about_rules depth 15

  or_try-About :
      (r : Result Message) (w : World) (handler : Exec Message)
      → About R w
      → Keeps (About R) handler
      → About R (or_try (r, w) handler).1
  or_try-About (ok a) w handler v h = v
  or_try-About (err e) w handler v h = h.at w v

  try_catch-About :
      (body handler : Exec Message)
      → Keeps (About R) body
      → Keeps (About R) handler
      → Keeps (About R) (try_catch body handler)
  unfolding try_catch
  try_catch-About body handler b h = record {
    at = λ w v. or_try-About (body w).0 (body w).1 handler (b.at w v) h;
  }

  finish_with-About :
      (status : Status) (m : Message) (now : ℕ) → Keeps (About R) (finish_with status m now)
  unfolding finish_with
  finish_with-About status m now = search about_rules depth 10

  send_to_all-About :
      (dests : List String) (d : MessageData) (m : Message) (now : ℕ)
      → Keeps (About R) (send_to_all dests d m now)
  unfolding send_to_all
  send_to_all-About [] d m now = finish_with-About _ m now
  send_to_all-About (dest ∷ dests) d m now =
      search (about_rules, try_catch-About, finish_with-About) depth 15

  pub send_topic_message-About :
      (name content : String) (t : ContentType) (id : String) (now : ℕ)
      → Keeps (About R) (send_topic_message name content t id now)
  unfolding send_topic_message
  send_topic_message-About name content t id now = search (about_rules, send_to_all-About) depth 30

  begin_topic_media-About : (present : Bool) → Keeps (About R) (begin_topic_media present)
  unfolding begin_topic_media throw_if
  begin_topic_media-About present = search about_rules depth 10

  pub begin_topic_upload-About :
      (present : Bool) (name preview id : String) (now : ℕ)
      → Keeps (About R) (begin_topic_upload present name preview id now)
  unfolding begin_topic_upload
  begin_topic_upload-About present name preview id now =
      search (about_rules, begin_topic_media-About) depth 30

  store_uploaded-About :
      (m : Message) (r : Uploaded) (now : ℕ) → Keeps (About R) (store_uploaded m r now)
  unfolding store_uploaded
  store_uploaded-About m r now =
      search (about_rules, update_options-About, update_content-About, update_thumbnail-About) depth
        20

  send_topic_uploaded-About :
      (name own : String) (m : Message) (r : Uploaded) (now : ℕ)
      → Keeps (About R) (send_topic_uploaded name own m r now)
  unfolding send_topic_uploaded
  send_topic_uploaded-About name own m r now = search (about_rules, finish_with-About) depth 20

  pub finish_topic_upload-About :
      (name own : String) (m : Message) (r : Option Uploaded) (now : ℕ)
      → Keeps (About R) (finish_topic_upload name own m r now)
  unfolding finish_topic_upload
  finish_topic_upload-About name own m none now = finish_with-About _ m now
  finish_topic_upload-About name own m (some r) now =
      search
        (
          about_rules, try_catch-About, finish_with-About, send_topic_uploaded-About,
          store_uploaded-About,
        )
        depth 20

  pub finish_topic_audio-About :
      (name id own : String) (sent_at : ℕ) (r : Uploaded) (now : ℕ)
      → Keeps (About R) (finish_topic_audio name id own sent_at r now)
  unfolding finish_topic_audio
  finish_topic_audio-About name id own sent_at r now =
      search (about_rules, send_to_all-About, update_options-About) depth 40
