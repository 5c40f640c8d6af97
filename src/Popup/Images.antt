-- ===== src/Popup/Images.antt =====
-- Which images are stored, and which image a visitor is given.
use tag2now_be.Prelude.{
  ℕ, ◌≡◌, ◌⊎◌, ◌≤◌, refl, sym, ap, ◌∙◌, String, Bool, true, false, ◌&&◌, ◌||◌, Option, none, some,
  List, ok, err, arith, Table, lookup, lookup-insert, length, drop, is_some, ltb, ◌==◌,
  if◌then◌else◌, inl, inr, Option-cases, Bool-cases,
}
use tag2now_be.Time.{Instant}
use tag2now_be.Popup.Domain.{
  PopupImage, PopupContent, max_image_bytes, too_large, wrong_type, png, jpeg, gif87a, gif89a, riff,
  webp, starts_with, sniff, parse_image,
}
use tag2now_be.Popup.Repository.{PopupRow, updated, get_image, update}

-- The bytes are of one of the formats that are taken.
unfoldable pub is_image : List ℕ → Bool
is_image bytes =
    starts_with png bytes
    || starts_with jpeg bytes
    || (starts_with gif87a bytes || starts_with gif89a bytes)
    || (starts_with riff bytes && starts_with webp (drop 8 bytes))

first_of :
    {A : Type 0} (p j g w : Bool) (a b c d : A)
    → is_some (
        if p
        then some a
        else if j
        then some b
        else if g
        then some c
        else if w
        then some d
        else none)
      ≡ (p || j || g || w)
first_of p j g w a b c d = ground arith

sniff-is_image : (bytes : List ℕ) → is_some (sniff bytes) ≡ is_image bytes
unfolding sniff is_image
sniff-is_image bytes =
    first_of (starts_with png bytes) (starts_with jpeg bytes)
      (starts_with gif87a bytes || starts_with gif89a bytes)
      (starts_with riff bytes && starts_with webp (drop 8 bytes)) "image/png" "image/jpeg"
      "image/gif" "image/webp"

-- An upload is taken exactly when it is no larger than 5 MB and its bytes are of a format that is
-- taken; it is stored as it came.
pub parse_image_cases :
    (digest : List ℕ → String) (bytes : List ℕ)
    → ((ltb max_image_bytes (length bytes) ≡ true) × (parse_image digest bytes ≡ err too_large))
      ⊎ (((ltb max_image_bytes (length bytes) || is_image bytes) ≡ false)
          × (parse_image digest bytes ≡ err wrong_type))
      ⊎ ((image : PopupImage) × (parse_image digest bytes ≡ ok image)
          × (image.bytes ≡ bytes)
          × (is_image bytes ≡ true)
          × (length bytes ≤ max_image_bytes))
unfolding parse_image
parse_image_cases digest bytes = elim (Bool-cases (ltb max_image_bytes (length bytes))) [
  | inl large ↦ inl (large, rw large refl)
  | inr fits ↦ elim (Option-cases (sniff bytes)) [
    | inl unknown ↦
        let none_of : is_image bytes ≡ false = sym (sniff-is_image bytes) ∙ ap is_some unknown in
        inr (inl (rw (fits, none_of) refl, rw (fits, unknown) refl))
    | inr (content_type, known) ↦
        let one_of : is_image bytes ≡ true = sym (sniff-is_image bytes) ∙ ap is_some known in
        inr (
          inr (
            record { bytes = bytes; content_type = content_type; hash = digest bytes },
            rw (fits, known) refl,
            refl,
            one_of,
            ground arith,
          ))
  ]
]

abbrev pub shown : Option PopupImage → Bool → Option PopupImage → Option PopupImage
shown (some new) remove_image stored = some new
shown none remove_image stored = if remove_image then none else stored

-- What an update leaves for visitors to see: the new image if one is given, none if it is to be
-- removed, and the stored one otherwise; the other popups keep theirs.
pub update-get_image :
    (popup_id other : ℕ) (content : PopupContent) (image : Option PopupImage) (remove_image : Bool)
    (at : Instant) (rows : Table PopupRow) (row : PopupRow)
    → lookup popup_id rows ≡ some row
    → get_image other (update popup_id content image remove_image at rows).1 ≡ (
        if popup_id == other
        then shown image remove_image (get_image popup_id rows)
        else get_image other rows)
unfolding update get_image
update-get_image popup_id other content none true at rows row e =
    ground (arith, lookup-insert popup_id other (updated content none true at row) rows)
update-get_image popup_id other content none false at rows row e =
    ground (arith, lookup-insert popup_id other (updated content none false at row) rows)
update-get_image popup_id other content (some new) remove_image at rows row e =
    ground
      (arith, lookup-insert popup_id other (updated content (some new) remove_image at row) rows)
