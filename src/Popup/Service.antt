-- ===== src/Popup/Service.antt =====
-- popup/service.py over the table of popups and the in-process cache. `to_text` and `of_text` are
-- `json.dumps` and `json.loads` of the cached answer, `digest` the hash of an image, and `path_of` the
-- address of a popup's image under its hash.
use tag2now_be.Prelude.{
  ℕ, String, Bool, true, Option, none, some, List, map, Result, ok, err, Error, not_found, Table,
  str_eq, if◌then◌else◌,
}
use tag2now_be.Prelude.Dict.{Dict}
use tag2now_be.Time.{Instant}
use tag2now_be.Cache.Store.{Entry, get, set, delete}
use tag2now_be.Popup.Domain.{PopupImage, PopupContent, Popup, parse_image}
use tag2now_be.Popup.Repository as Repository
use tag2now_be.Popup.Repository.{PopupRow}

abbrev pub active_key : String
active_key = "popups:active"

abbrev pub popup_missing : Error
popup_missing = not_found "팝업을 찾을 수 없습니다."

pub record PopupOut : Type 0 where
  pub id : ℕ
  pub title : String
  pub body : String
  pub image_path : Option String
  pub allow_dismiss_forever : Bool
  pub allow_dismiss_day : Bool

-- The cache and the table.
pub record State : Type 0 where
  pub cache : Dict Entry
  pub popups : Table PopupRow

abbrev pub parse_upload : (List ℕ → String) → Option (List ℕ) → Result (Option PopupImage)
parse_upload digest none = ok none
parse_upload digest (some image_data) = elim (parse_image digest image_data) [
  | ok image ↦ ok (some image)
  | err e ↦ err e
]

module _ (path_of : ℕ → String → String) where
  abbrev image_path : ℕ → Option String → Option String
  image_path id none = none
  image_path id (some hash) = if str_eq hash "" then none else some (path_of id hash)

  abbrev pub popup_out : Popup → PopupOut
  popup_out popup = record {
    id = popup.id;
    title = popup.content.title;
    body = popup.content.body;
    image_path = image_path popup.id popup.image_hash;
    allow_dismiss_forever = popup.content.allow_dismiss_forever;
    allow_dismiss_day = popup.content.allow_dismiss_day;
  }

  abbrev pub active_popups : Table PopupRow → List PopupOut
  active_popups rows = map popup_out (Repository.list_popups true rows)

module _ (path_of : ℕ → String → String) (to_text : List PopupOut → String)
    (of_text : String → List PopupOut) where
  -- What `cache_get` answered, or the table's popups, which are kept.
  abbrev answer_with :
      (ttl now : ℕ) → Option (List PopupOut) → Dict Entry → Table PopupRow → List PopupOut × State
  answer_with ttl now (some cached) cache rows = (cached, record { cache = cache; popups = rows })
  answer_with ttl now none cache rows =
      let active = active_popups path_of rows in
      (active, record { cache = set to_text active_key active ttl now cache; popups = rows })

  unfoldable pub list_active : (ttl now : ℕ) → State → List PopupOut × State
  list_active ttl now s =
      let (cached, cache) = get of_text active_key now s.cache in
      answer_with ttl now cached cache s.popups

unfoldable pub get_image : ℕ → State → Result PopupImage
get_image popup_id s = elim (Repository.get_image popup_id s.popups) [
  | none ↦ err popup_missing
  | some image ↦ ok image
]

abbrev written : Table PopupRow → State → State
written rows s = record { cache = delete active_key s.cache; popups = rows }

module _ (digest : List ℕ → String) where
  unfoldable pub create :
      ℕ → Instant → String → PopupContent → Option (List ℕ) → State → Result (Popup × State)
  create id at admin content image_data s = elim (parse_upload digest image_data) [
    | err e ↦ err e
    | ok image ↦
        let (popup, rows) = Repository.create id at content image admin s.popups in
        ok (popup, written rows s)
  ]

  unfoldable pub update :
      ℕ → PopupContent → Option (List ℕ) → Bool → Instant → State → Result (Popup × State)
  update popup_id content image_data remove_image at s = elim (parse_upload digest image_data) [
    | err e ↦ err e
    | ok image ↦
        let (popup, rows) = Repository.update popup_id content image remove_image at s.popups in
        elim popup [ none ↦ err popup_missing | some p ↦ ok (p, written rows s) ]
  ]

unfoldable pub delete_popup : ℕ → State → Result (Unit {0} × State)
delete_popup popup_id s =
    let (deleted, rows) = Repository.delete popup_id s.popups in
    if deleted then ok (tt, written rows s) else err popup_missing
