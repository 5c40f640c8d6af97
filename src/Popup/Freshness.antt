-- ===== src/Popup/Freshness.antt =====
-- The cached list of active popups against the table, over any run of requests that take turns. A
-- visitor's read that overlaps an admin's write may still put back the list from before it.
use tag2now_be.Prelude.{
  ℕ, ◌+◌, ◌≡◌, ◌⊎◌, erase, refl, ap, String, Bool, Option, none, some, List, [], ◌∷◌, Result, ok,
  err, arith, Table, lookup, inl, inr, Option-cases, Bool-cases, Result-cases,
}
use tag2now_be.Prelude.Dict
use tag2now_be.Prelude.Dict.{Dict}
use tag2now_be.Time.{Instant}
use tag2now_be.Cache.Store.{Entry, get, finish_get, set, delete, has_expired}
use tag2now_be.Popup.Domain.{PopupContent}
use tag2now_be.Popup.Repository as Repository
use tag2now_be.Popup.Repository.{PopupRow}
use tag2now_be.Popup.Service.{
  State, PopupOut, active_key, active_popups, parse_upload, list_active, create, update,
  delete_popup,
}

pub data Request : Type 0 where
  visiting : (ttl now : ℕ) → Request
  creating :
      (id : ℕ) (at : Instant) (admin : String) (content : PopupContent)
      (image_data : Option (List ℕ))
      → Request
  updating :
      (popup_id : ℕ) (content : PopupContent) (image_data : Option (List ℕ)) (remove_image : Bool)
      (at : Instant)
      → Request
  deleting : (popup_id : ℕ) → Request

erase-absent : (k : ℕ) (rows : Table PopupRow) → lookup k rows ≡ none → erase k rows ≡ rows
unfolding erase
erase-absent k [] h = refl
erase-absent k ((j, row) ∷ rows) h = ground (arith, erase-absent k rows)

-- The table after a request that keeps no cache.
unfoldable pub rows_after : (List ℕ → String) → Request → Table PopupRow → Table PopupRow
rows_after digest (visiting ttl now) rows = rows
rows_after digest (creating id at admin content image_data) rows =
    elim (parse_upload digest image_data) [
      | err e ↦ rows
      | ok image ↦ (Repository.create id at content image admin rows).1
    ]
rows_after digest (updating popup_id content image_data remove_image at) rows =
    elim (parse_upload digest image_data) [
      | err e ↦ rows
      | ok image ↦ (Repository.update popup_id content image remove_image at rows).1
    ]
rows_after digest (deleting popup_id) rows = (Repository.delete popup_id rows).1

module _ (path_of : ℕ → String → String) (digest : List ℕ → String) where
  -- What a visitor reads off the table.
  abbrev pub read_of : Request → Table PopupRow → Option (List PopupOut)
  read_of (visiting ttl now) rows = some (active_popups path_of rows)
  read_of _ rows = none

  unfoldable pub read_through : List Request → Table PopupRow → List (Option (List PopupOut))
  read_through [] rows = []
  read_through (request ∷ requests) rows =
      read_of request rows ∷ read_through requests (rows_after digest request rows)

abbrev result_after : {A : Type 0} → Result (A × State) → State → State
result_after (ok (_, s')) s = s'
result_after (err e) s = s

module _ (path_of : ℕ → String → String) (to_text : List PopupOut → String)
    (of_text : String → List PopupOut) (digest : List ℕ → String) where
  -- One request: a visitor's answer, and the state after it.
  unfoldable pub step : Request → State → Option (List PopupOut) × State
  unfolding list_active create update delete_popup
  step (visiting ttl now) s =
      let (answer, s') = list_active path_of to_text of_text ttl now s in (some answer, s')
  step (creating id at admin content image_data) s =
      (none, result_after (create digest id at admin content image_data s) s)
  step (updating popup_id content image_data remove_image at) s =
      (none, result_after (update digest popup_id content image_data remove_image at s) s)
  step (deleting popup_id) s = (none, result_after (delete_popup popup_id s) s)

  unfoldable pub serve : List Request → State → List (Option (List PopupOut))
  unfolding step
  serve [] s = []
  serve (request ∷ requests) s = let (answer, s') = step request s in answer ∷ serve requests s'

  -- What the cache holds is the table's list.
  abbrev pub IsFresh : State → Type 0
  IsFresh s =
      (e : Entry)
      → Dict.lookup active_key s.cache ≡ some e
      → of_text e.value_json ≡ active_popups path_of s.popups

  set-IsFresh :
      (ttl now : ℕ) (cache : Dict Entry) (rows : Table PopupRow)
      → of_text (to_text (active_popups path_of rows)) ≡ active_popups path_of rows
      → IsFresh (record {
        cache = set to_text active_key (active_popups path_of rows) ttl now cache;
        popups = rows;
      })
  unfolding set
  set-IsFresh ttl now cache rows survives e h =
      let written : Entry = record {
        value_json = to_text (active_popups path_of rows);
        expire_at = now + ttl;
      } in
      let same : written ≡ e =
        ground (arith, Dict.lookup-insert active_key active_key written cache) in
      rw (← same) survives

  deleted-IsFresh :
      (cache : Dict Entry) (rows : Table PopupRow)
      → IsFresh (record { cache = delete active_key cache; popups = rows })
  unfolding delete
  deleted-IsFresh cache rows e h =
      absurd (ground (arith, Dict.lookup-erase active_key active_key cache))

  -- A visitor is answered from the table, and the cache stays fresh.
  list_active-IsFresh :
      (ttl now : ℕ) (s : State)
      → of_text (to_text (active_popups path_of s.popups)) ≡ active_popups path_of s.popups
      → IsFresh s
      → (s' : State) × (list_active path_of to_text of_text ttl now s
          ≡ (active_popups path_of s.popups, s'))
        × IsFresh s'
        × (s'.popups ≡ s.popups)
  unfolding list_active get finish_get
  list_active-IsFresh ttl now s survives fresh =
      let active = active_popups path_of s.popups in
      elim (Option-cases (Dict.lookup active_key s.cache)) [
        | inl absent ↦ (
          record { cache = set to_text active_key active ttl now s.cache; popups = s.popups },
          ground arith,
          set-IsFresh ttl now s.cache s.popups survives,
          refl,
        )
        | inr (e, there) ↦ elim (Bool-cases (has_expired now e)) [
          | inl old ↦ (
            record {
              cache = set to_text active_key active ttl now (Dict.erase active_key s.cache);
              popups = s.popups;
            },
            ground arith,
            set-IsFresh ttl now (Dict.erase active_key s.cache) s.popups survives,
            refl,
          )
          | inr valid ↦ (s, ground (arith, fresh e there), fresh, refl)
        ]
      ]

  -- A write that raises changes nothing, and any other drops the cached list.
  abbrev IsWritten : Request → State → Type 0
  IsWritten request s =
      ((step request s ≡ (none, s)) × (rows_after digest request s.popups ≡ s.popups))
      ⊎ (step request s ≡ (
        none,
        record { cache = delete active_key s.cache; popups = rows_after digest request s.popups },
      ))

  creating-IsWritten :
      (id : ℕ) (at : Instant) (admin : String) (content : PopupContent)
      (image_data : Option (List ℕ)) (s : State)
      → IsWritten (creating id at admin content image_data) s
  unfolding step create rows_after
  creating-IsWritten id at admin content image_data s =
      elim (Result-cases (parse_upload digest image_data)) [
        | inl (image, parsed) ↦ inr (ground arith)
        | inr (e, refused) ↦ inl (ground arith, ground arith)
      ]

  updating-IsWritten :
      (popup_id : ℕ) (content : PopupContent) (image_data : Option (List ℕ)) (remove_image : Bool)
      (at : Instant) (s : State)
      → IsWritten (updating popup_id content image_data remove_image at) s
  unfolding step update rows_after Repository.update
  updating-IsWritten popup_id content image_data remove_image at s =
      elim (Result-cases (parse_upload digest image_data)) [
        | inl (image, parsed) ↦ elim (Option-cases (lookup popup_id s.popups)) [
          | inl missing ↦ inl (ground arith, ground arith)
          | inr (row, found) ↦ inr (ground arith)
        ]
        | inr (e, refused) ↦ inl (ground arith, ground arith)
      ]

  deleting-IsWritten : (popup_id : ℕ) (s : State) → IsWritten (deleting popup_id) s
  unfolding step delete_popup rows_after Repository.delete
  deleting-IsWritten popup_id s = elim (Option-cases (lookup popup_id s.popups)) [
    | inl missing ↦ inl (ground arith, ground (arith, erase-absent popup_id s.popups missing))
    | inr (row, found) ↦ inr (ground arith)
  ]

  -- A request does to the table what it does without a cache, answers what the table says, and keeps
  -- the cache fresh.
  record Refines (request : Request) (s : State) : Type 0 where
    answer : (step request s).0 ≡ read_of path_of digest request s.popups
    table : (step request s).1.popups ≡ rows_after digest request s.popups
    fresh : IsFresh (step request s).1

  written-Refines :
      (request : Request) (s : State)
      → IsFresh s
      → IsWritten request s
      → read_of path_of digest request s.popups ≡ none
      → Refines request s
  written-Refines request s fresh (inl (same, kept)) silent = record {
    answer = ground arith;
    table = ground arith;
    fresh = rw same fresh;
  }
  written-Refines request s fresh (inr written) silent = record {
    answer = ground arith;
    table = ground arith;
    fresh = rw written (deleted-IsFresh s.cache (rows_after digest request s.popups));
  }

  -- The list that a visitor reads survives the cache's text.
  abbrev pub Survives : Option (List PopupOut) → Type 0
  Survives none = Unit
  Survives (some active) = of_text (to_text active) ≡ active

  step-Refines :
      (request : Request) (s : State)
      → Survives (read_of path_of digest request s.popups)
      → IsFresh s
      → Refines request s
  unfolding step rows_after
  step-Refines (visiting ttl now) s survives fresh =
      let (s', answered, fresh', same) = list_active-IsFresh ttl now s survives fresh in
      record { answer = rw answered refl; table = rw answered same; fresh = rw answered fresh' }
  step-Refines (creating id at admin content image_data) s survives fresh =
      written-Refines (creating id at admin content image_data) s fresh
        (creating-IsWritten id at admin content image_data s) refl
  step-Refines (updating popup_id content image_data remove_image at) s survives fresh =
      written-Refines (updating popup_id content image_data remove_image at) s fresh
        (updating-IsWritten popup_id content image_data remove_image at s) refl
  step-Refines (deleting popup_id) s survives fresh =
      written-Refines (deleting popup_id) s fresh (deleting-IsWritten popup_id s) refl

  -- Every list that is read in a run survives.
  unfoldable pub AllSurvive : List Request → Table PopupRow → Type 0
  AllSurvive [] rows = Unit
  AllSurvive (request ∷ requests) rows =
      Survives (read_of path_of digest request rows)
      × AllSurvive requests (rows_after digest request rows)

  -- If every list of popups that is read in a run survives the cache's text, the run answers each
  -- visitor as one that reads the table each time.
  pub serve-read_through :
      (requests : List Request) (s : State)
      → AllSurvive requests s.popups
      → IsFresh s
      → serve requests s ≡ read_through path_of digest requests s.popups
  unfolding serve read_through AllSurvive
  serve-read_through [] s survive fresh = refl
  serve-read_through (request ∷ requests) s (survives, survive) fresh =
      let r = step-Refines request s survives fresh in
      rw (r.answer, ← r.table)
        (ap (λ (l : List (Option (List PopupOut))). read_of path_of digest request s.popups ∷ l)
          (serve-read_through requests (step request s).1 (rw r.table survive) r.fresh))
