-- ===== src/Popup/Repository.antt =====
-- popup/adapters/postgresql.py: the methods of `PostgresPopupRepository` on the rows of
-- popup/entities.py. A generated key and `func.now()` are the arguments `id` and `at`.
use tag2now_be.Prelude.{
  ℕ, String, Bool, not, ◌||◌, Option, none, some, List, map, Table, lookup, insert, erase, select,
  sort_by, is_some, ltb, if◌then◌else◌,
}
use tag2now_be.Time.{Instant}
use tag2now_be.Popup.Domain.{PopupImage, PopupContent, Popup}

pub record PopupRow : Type 0 where
  pub title : String
  pub body : String
  pub image : Option (List ℕ)
  pub image_type : Option String
  pub image_hash : Option String
  pub allow_dismiss_forever : Bool
  pub allow_dismiss_day : Bool
  pub active : Bool
  pub created_by : String
  pub created_at : Instant
  pub updated_at : Instant

abbrev pub to_model : ℕ × PopupRow → Popup
to_model (id, row) = record {
  id = id;
  content = record {
    title = row.title;
    body = row.body;
    allow_dismiss_forever = row.allow_dismiss_forever;
    allow_dismiss_day = row.allow_dismiss_day;
    active = row.active;
  };
  image_hash = row.image_hash;
  created_by = row.created_by;
  created_at = row.created_at;
  updated_at = row.updated_at;
}

-- A row with the columns of `_image_values`.
abbrev pub with_image : Option PopupImage → PopupRow → PopupRow
with_image none row = record row { image = none; image_type = none; image_hash = none }
with_image (some image) row = record row {
  image = some image.bytes;
  image_type = some image.content_type;
  image_hash = some image.hash;
}

abbrev pub with_content : PopupContent → PopupRow → PopupRow
with_content content row = record row {
  title = content.title;
  body = content.body;
  allow_dismiss_forever = content.allow_dismiss_forever;
  allow_dismiss_day = content.allow_dismiss_day;
  active = content.active;
}

abbrev pub newest_first : ℕ × PopupRow → ℕ × PopupRow → Bool
newest_first a b = ltb b.0 a.0

unfoldable pub list_popups : Bool → Table PopupRow → List Popup
list_popups active_only rows =
    map to_model (sort_by newest_first (select (λ _ row. not active_only || row.active) rows))

abbrev image_in : Option PopupRow → Option PopupImage
image_in none = none
image_in (some row) = elim row.image [
  | none ↦ none
  | some bytes ↦ elim row.image_type [
    | none ↦ none
    | some content_type ↦ elim row.image_hash [
      | none ↦ none
      | some hash ↦ some (record { bytes = bytes; content_type = content_type; hash = hash })
    ]
  ]
]

-- The three columns of an image are null together.
unfoldable pub get_image : ℕ → Table PopupRow → Option PopupImage
get_image popup_id rows = image_in (lookup popup_id rows)

abbrev pub new_row : PopupContent → Option PopupImage → String → Instant → PopupRow
new_row content image created_by at = with_image image (record {
  title = content.title;
  body = content.body;
  image = none;
  image_type = none;
  image_hash = none;
  allow_dismiss_forever = content.allow_dismiss_forever;
  allow_dismiss_day = content.allow_dismiss_day;
  active = content.active;
  created_by = created_by;
  created_at = at;
  updated_at = at;
})

unfoldable pub create :
    ℕ
    → Instant
    → PopupContent
    → Option PopupImage
    → String
    → Table PopupRow
    → Popup × Table PopupRow
create id at content image created_by rows =
    let row = new_row content image created_by at in (to_model (id, row), insert id row rows)

-- `if image or remove_image: values |= _image_values(image)`.
abbrev pub updated : PopupContent → Option PopupImage → Bool → Instant → PopupRow → PopupRow
updated content image remove_image at row =
    let written = record (with_content content row) { updated_at = at } in
    if is_some image || remove_image then with_image image written else written

unfoldable pub update :
    ℕ
    → PopupContent
    → Option PopupImage
    → Bool
    → Instant
    → Table PopupRow
    → Option Popup × Table PopupRow
update popup_id content image remove_image at rows = elim (lookup popup_id rows) [
  | none ↦ (none, rows)
  | some row ↦
      let row' = updated content image remove_image at row in
      (some (to_model (popup_id, row')), insert popup_id row' rows)
]

unfoldable pub delete : ℕ → Table PopupRow → Bool × Table PopupRow
delete popup_id rows = (is_some (lookup popup_id rows), erase popup_id rows)
