-- ===== src/Popup/Tests.antt =====
-- The popups at concrete inputs, and their theorems there.
use tag2now_be.Prelude.{
  ℕ, ◌≡◌, ◌≤◌, ◌⊎◌, ◌||◌, ◌==◌, refl, String, true, false, none, some, List, [], ◌∷◌, ok, err,
  arith, Table, insert, erase, select, sort_by, str_eq, ltb, length, if◌then◌else◌,
}
use tag2now_be.Prelude.Dict
use tag2now_be.Popup.Domain.{
  PopupImage, PopupContent, png, parse_image, sniff, starts_with, max_image_bytes, too_large,
  wrong_type,
}
use tag2now_be.Popup.Repository as Repository
use tag2now_be.Popup.Repository.{PopupRow, new_row}
use tag2now_be.Popup.Images.{is_image, shown, parse_image_cases, update-get_image}
use tag2now_be.Popup.Service.{State, PopupOut}
use tag2now_be.Popup.Freshness.{
  Request, visiting, creating, deleting, read_through, rows_after, AllSurvive, IsFresh, serve,
  serve-read_through,
}

abbrev digest : List ℕ → String
digest bytes = "abc"

parse_image_cases_example :
    ((ltb max_image_bytes (length png) ≡ true) × (parse_image digest png ≡ err too_large))
    ⊎ (((ltb max_image_bytes (length png) || is_image png) ≡ false)
        × (parse_image digest png ≡ err wrong_type))
    ⊎ ((image : PopupImage) × (parse_image digest png ≡ ok image)
        × (image.bytes ≡ png)
        × (is_image png ≡ true)
        × (length png ≤ max_image_bytes))
parse_image_cases_example = parse_image_cases digest png

abbrev content : String → PopupContent
content title = record {
  title = title;
  body = "";
  allow_dismiss_forever = false;
  allow_dismiss_day = true;
  active = true;
}

abbrev image : PopupImage
image = record { bytes = png; content_type = "image/png"; hash = "abc" }

abbrev stored : PopupRow
stored = new_row (content "news") (some image) "ann" 10

abbrev rows : Table PopupRow
rows = (1, stored) ∷ []

update-get_image_example :
    Repository.get_image 1 (Repository.update 1 (content "old news") none false 20 rows).1 ≡ (
      if 1 == 1
      then shown none false (Repository.get_image 1 rows)
      else Repository.get_image 1 rows)
update-get_image_example = update-get_image 1 1 (content "old news") none false 20 rows stored refl

abbrev path_of : ℕ → String → String
path_of id hash = hash

abbrev news : PopupOut
news = record {
  id = 1;
  title = "news";
  body = "";
  image_path = some "abc";
  allow_dismiss_forever = false;
  allow_dismiss_day = true;
}

-- Texts for the two lists of this run.
to_text : List PopupOut → String
to_text [] = "[]"
to_text (p ∷ ps) = "[news]"

of_text : String → List PopupOut
of_text text = if str_eq text "[]" then [] else news ∷ []

abbrev requests : List Request
requests =
    visiting 60 0
    ∷ creating 1 10 "ann" (content "news") (some png)
    ∷ visiting 60 11
    ∷ visiting 60 12
    ∷ deleting 1
    ∷ visiting 60 13
    ∷ []

abbrev nothing : State
nothing = record { cache = []; popups = [] }

all-survive : AllSurvive path_of to_text of_text digest requests []
unfolding AllSurvive rows_after parse_image sniff starts_with Repository.create Repository.delete
    Repository.list_popups insert erase select sort_by to_text of_text
all-survive = (refl, (tt, (refl, (refl, (tt, (refl, tt))))))

nothing-IsFresh : IsFresh path_of to_text of_text digest nothing
unfolding Dict.lookup
nothing-IsFresh e h = absurd (ground arith)

serve-read_through_example :
    serve path_of to_text of_text digest requests nothing ≡ read_through path_of digest requests []
serve-read_through_example =
    serve-read_through path_of to_text of_text digest requests nothing all-survive nothing-IsFresh
