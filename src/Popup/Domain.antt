-- ===== src/Popup/Domain.antt =====
-- popup/domain.py and the records of popup/models.py. Bytes are numbers; `digest` stands for the hex
-- text of `sha256`, cut to its first characters.
use tag2now_be.Prelude.{
  ℕ, ◌*◌, String, Bool, true, false, ◌&&◌, ◌||◌, Option, none, some, List, [], ◌∷◌, Result, ok, err,
  Error, validation, drop, length, ltb, ◌==◌, if◌then◌else◌,
}
use tag2now_be.Time.{Instant}

pub record PopupImage : Type 0 where
  pub bytes : List ℕ
  pub content_type : String
  pub hash : String

pub record PopupContent : Type 0 where
  pub title : String
  pub body : String
  pub allow_dismiss_forever : Bool
  pub allow_dismiss_day : Bool
  pub active : Bool

pub record Popup : Type 0 where
  pub id : ℕ
  pub content : PopupContent
  pub image_hash : Option String
  pub created_by : String
  pub created_at : Instant
  pub updated_at : Instant

abbrev pub max_image_bytes : ℕ
max_image_bytes = 5 * 1024 * 1024

abbrev pub too_large : Error
too_large = validation "이미지는 5MB를 넘을 수 없습니다."

abbrev pub wrong_type : Error
wrong_type = validation "PNG, JPEG, WebP, GIF 이미지만 올릴 수 있습니다."

-- `data.startswith(prefix)`.
unfoldable pub starts_with : List ℕ → List ℕ → Bool
starts_with [] bytes = true
starts_with (p ∷ prefix) [] = false
starts_with (p ∷ prefix) (b ∷ bytes) = p == b && starts_with prefix bytes

abbrev pub png : List ℕ
png = 137 ∷ 80 ∷ 78 ∷ 71 ∷ 13 ∷ 10 ∷ 26 ∷ 10 ∷ []

abbrev pub jpeg : List ℕ
jpeg = 255 ∷ 216 ∷ 255 ∷ []

abbrev pub gif87a : List ℕ
gif87a = 71 ∷ 73 ∷ 70 ∷ 56 ∷ 55 ∷ 97 ∷ []

abbrev pub gif89a : List ℕ
gif89a = 71 ∷ 73 ∷ 70 ∷ 56 ∷ 57 ∷ 97 ∷ []

abbrev pub riff : List ℕ
riff = 82 ∷ 73 ∷ 70 ∷ 70 ∷ []

abbrev pub webp : List ℕ
webp = 87 ∷ 69 ∷ 66 ∷ 80 ∷ []

-- `_sniff`; a slice at the front that equals a text is a start with it.
unfoldable pub sniff : List ℕ → Option String
unfolding starts_with
sniff bytes =
    if starts_with png bytes
    then some "image/png"
    else if starts_with jpeg bytes
    then some "image/jpeg"
    else if starts_with gif87a bytes || starts_with gif89a bytes
    then some "image/gif"
    else if starts_with riff bytes && starts_with webp (drop 8 bytes)
    then some "image/webp"
    else none

abbrev image_of : (List ℕ → String) → List ℕ → Option String → Result PopupImage
image_of digest bytes none = err wrong_type
image_of digest bytes (some content_type) =
    ok (record { bytes = bytes; content_type = content_type; hash = digest bytes })

unfoldable pub parse_image : (List ℕ → String) → List ℕ → Result PopupImage
unfolding sniff
parse_image digest bytes =
    if ltb max_image_bytes (length bytes)
    then err too_large
    else image_of digest bytes (sniff bytes)
