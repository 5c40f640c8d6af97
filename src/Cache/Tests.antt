-- ===== src/Cache/Tests.antt =====
-- Runs of the cache at concrete inputs, and its theorems there. Values are texts that stand for
-- themselves.
use tag2now_be.Prelude.{◌≡◌, refl, String, [], ◌∷◌}
use tag2now_be.Prelude.Dict
use tag2now_be.Prelude.Dict.{Dict}
use tag2now_be.Cache.Store.{Entry, get}
use tag2now_be.Cache.Laws.{get-get}

abbrev text : String → String
text t = t

abbrev rooms : Dict Entry
rooms = ("rooms", record { value_json = "old"; expire_at = 20 }) ∷ []

get-get_example :
    (get text "rooms" 26 (get text "rooms" 25 rooms).1).0 ≡ (get text "rooms" 26 rooms).0
get-get_example = get-get text "rooms" "rooms" 25 26 rooms refl
