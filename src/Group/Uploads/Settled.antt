-- ===== src/Group/Uploads/Settled.antt =====
-- private-group-service.ts: what becomes of the status of an upload.
use dchat_desktop.Common.{
  ℕ, String, Option, none, some, ◌≡◌, refl, sym, subst, ◌⊎◌, inl, inr, arith, beq_self, string_eq,
}
use dchat_desktop.Table.{find-update}
use dchat_desktop.Types.{Message, Status, sent, failed}
use dchat_desktop.Store.Db.{message_key}
use dchat_desktop.Store.Messages
use dchat_desktop.Group.Messages.{try_catch, or_try, finish_with}
use dchat_desktop.Group.Uploads.{
  Uploaded, send_uploaded, store_uploaded, finish_upload, uploaded_message,
}
use dchat_desktop.Exec.{Exec, World, Error, Result, ok, err, next, bind_of_ok}

-- The method returns the message as sent or as failed, and the row, if it is there, has that status.
pub record IsSettled (id : String) (r : Result Message × World) : Type 0 where
  pub message : Message
  pub returned : r.0 ≡ ok message
  pub final : (message.status ≡ sent) ⊎ (message.status ≡ failed)
  pub stored :
      (row : Message) → Messages.find_by_id id r.1.db ≡ some row → row.status ≡ message.status

pub finish_with-IsSettled :
    (status : Status) (m : Message) (now : ℕ) (w : World)
    → (status ≡ sent) ⊎ (status ≡ failed)
    → IsSettled m.id (finish_with status m now w)
unfolding finish_with Messages.update_status Messages.set_row Messages.find_by_id
finish_with-IsSettled status m now w final = record {
  message = record m { status = status };
  returned = refl;
  final = final;
  stored = λ row h. ground (
    arith,
    h,
    find-update message_key m.id m.id (Messages.with_status status now) w.db.messages (λ r. refl),
    beq_self m.id,
  );
}

abbrev SettlesOrThrows : String → Result Message × World → Type 0
SettlesOrThrows id r = ((e : Error) × (r.0 ≡ err e)) ⊎ IsSettled id r

module _ (m : Message) (now : ℕ) where
  pub next-SettlesOrThrows :
      (r : Result (Unit {0})) (w : World)
      → SettlesOrThrows m.id (next (r, w) (λ _. finish_with sent m now))
  next-SettlesOrThrows (ok a) w = inr (finish_with-IsSettled sent m now w (inl refl))
  next-SettlesOrThrows (err e) w = inl (e, refl)

  pub or_try-IsSettled :
      (r : Result Message) (w : World)
      → SettlesOrThrows m.id (r, w)
      → IsSettled m.id (or_try (r, w) (finish_with failed m now))
  or_try-IsSettled (ok a) w (inl h) = cc
  or_try-IsSettled (ok a) w (inr h) = h
  or_try-IsSettled (err e) w h = finish_with-IsSettled failed m now w (inr refl)

module _ (group_id own : String) (m : Message) (r : Uploaded) (now : ℕ) where
  send_uploaded-SettlesOrThrows :
      (w : World) → SettlesOrThrows m.id (send_uploaded group_id own m r now w)
  unfolding send_uploaded
  send_uploaded-SettlesOrThrows w = next-SettlesOrThrows (uploaded_message r m) now _ _

  pub store_uploaded-ok : (w : World) → (store_uploaded m r now w).0 ≡ ok tt
  unfolding store_uploaded
  store_uploaded-ok w = ground arith

  send_or_fail : Exec Message
  send_or_fail =
      try_catch (send_uploaded group_id own m r now) (finish_with failed (uploaded_message r m) now)

  send_or_fail-IsSettled : (w : World) → IsSettled m.id (send_or_fail w)
  unfolding try_catch send_or_fail
  send_or_fail-IsSettled w =
      let x = send_uploaded group_id own m r now w in
      or_try-IsSettled (uploaded_message r m) now x.0 x.1 (send_uploaded-SettlesOrThrows w)

  finish_upload-some : (w : World) → IsSettled m.id (finish_upload group_id own m (some r) now w)
  unfolding finish_upload send_or_fail
  finish_upload-some w =
      subst (IsSettled m.id)
        (sym (bind_of_ok (store_uploaded m r now) (λ _. send_or_fail) w tt (store_uploaded-ok w)))
        (send_or_fail-IsSettled (store_uploaded m r now w).1)

-- In a group.
pub finish_upload-settles :
    (group_id own : String) (m : Message) (uploaded : Option Uploaded) (now : ℕ) (w : World)
    → IsSettled m.id (finish_upload group_id own m uploaded now w)
unfolding finish_upload
finish_upload-settles group_id own m none now w = finish_with-IsSettled failed m now w (inr refl)
finish_upload-settles group_id own m (some r) now w = finish_upload-some group_id own m r now w
