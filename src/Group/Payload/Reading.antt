-- ===== src/Group/Payload/Reading.antt =====
-- What is read back from an entry that the service has sent.
use Prim.Native.String.{[], ◌∷◌}
use dchat_desktop.Common.{String, some, true, ◌≡◌, refl}
use dchat_desktop.Common.Text.{truthy}
use dchat_desktop.Types.Group.{Member}
use dchat_desktop.Group.Payload.{◌or_string◌, normalise, to_snake_case}

pub or_text_self : (s : String) → (some s or_string "") ≡ s
or_text_self [] = refl
or_text_self (c ∷ s) = refl

-- A member entry that one client puts into a member list is read by another as the same member,
-- field by field, though the two spell the keys differently.
pub normalise-to_snake_case : (m : Member) → normalise (to_snake_case m) ≡ m
unfolding normalise to_snake_case
normalise-to_snake_case m =
    rw
      (
        or_text_self m.group_id,
        or_text_self m.inviter,
        or_text_self m.invitee,
        or_text_self m.inviter_raw_data,
        or_text_self m.invitee_raw_data,
        or_text_self m.inviter_signature,
        or_text_self m.invitee_signature,
      )
      refl

pub or_text_truthy : (s t : String) → truthy (some s) ≡ true → (some s or_string t) ≡ s
or_text_truthy [] t h = cc
or_text_truthy (c ∷ s) t h = refl
