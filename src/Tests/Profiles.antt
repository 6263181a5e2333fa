-- ===== src/Tests/Profiles.antt =====
-- The theorems on contact profiles at concrete inputs.
use dchat_desktop.Common.{
  List, ◌+◌, ◌≤◌, String, Option, none, some, [], ◌∷◌, length, ◌≡◌, refl, arith,
}
use dchat_desktop.Types.{MessageData}
use dchat_desktop.Table.{find}
use dchat_desktop.Store.Contacts
use dchat_desktop.Chat.Incoming.{no_options}
use dchat_desktop.Profile.{
  Own, Content, no_responses, handle_profile_response, check_and_request_profile,
}
use dchat_desktop.Profile.Throttle.{Request, answer_all, answer_all-once}
use dchat_desktop.Profile.Exchange.{handle_profile_response-settles}
use dchat_desktop.Exec.{ok}
use dchat_desktop.Tests.Fixtures.{world, hello, contact_bob}

abbrev own : Own
own = record { nickname = "Al"; version = "v1"; avatar = none }

abbrev content : Content
content = record { name = some "Robert"; first_name = some "Rob"; avatar = some "png" }

abbrev greeting : MessageData
greeting = record hello { options = some (record no_options { profile_version = some "v2" }) }

abbrev saved : String → Option String
saved base64 = some "bob.jpeg"

abbrev requests : List Request
requests =
    record { request_type = "header"; id = "p1"; at = 40000 }
    ∷ record { request_type = "full"; id = "p2"; at = 50000 }
    ∷ []

-- The second request comes ten seconds after the first.
answer_all-once_example : length (answer_all own "bob" requests no_responses world).1.sent ≤ 0 + 1
answer_all-once_example =
    answer_all-once own "bob" 40000 no_responses requests world
      ((ground arith, ground arith), ((ground arith, ground arith), tt))

handle_profile_response-settles_example :
    let after =
      (handle_profile_response saved "bob" (some "v2") "full" (some content) "p1" 80 world).1 in
    (Contacts.find_by_address "bob" after.db
      ≡ some (record contact_bob {
        name = "Rob";
        avatar_uri = some "bob.jpeg";
        profile_version = some "v2";
        updated_at = 80;
      }))
    × (check_and_request_profile "bob" greeting "p2" 90 after ≡ (ok tt, after))
unfolding Contacts.find_by_address find
handle_profile_response-settles_example =
    handle_profile_response-settles saved "bob" "v2" "p1" 80 contact_bob content greeting "p2" 90
      world refl refl refl refl
