-- ===== src/Idempotency/Once.antt =====
-- What `run_once` promises: one run of the write for each key, and one answer.
use tag2now_be.Prelude.{
  String, Option, none, some, List, [], ◌∷◌, ◌≡◌, ◌≢◌, refl, arith, Error, ok, err, Tx, eq_iff,
  Option-cases, Result-cases, ◌⊎◌, inl, inr,
}
use tag2now_be.Idempotency.Store.{
  KeyRow, find_key, set_response, Session, on_tables, claim, complete, run_once, key_reused,
}

module _ (Json : Type 0) {S A : Type 0} (m : Tx S A) where
  pub on_tables-inv :
      (s s' : Session Json S) (out : A) → on_tables Json m s ≡ ok (out, s') → m s.1 ≡ ok (out, s'.1)
  on_tables-inv (rows, db) (rows', db') out e = elim (Result-cases (m db)) [
    | inl ((a, t), done) ↦ ground arith
    | inr (problem, failed) ↦ absurd (ground arith)
  ]

module _ (Json : Type 0) where
  -- The stored answer of a key, read by the same key after it is set.
  find_key-set_response :
      (subject key : String) (response : Option Json) (rows : List (KeyRow Json))
      (row : KeyRow Json)
      → find_key Json subject key rows ≡ some row
      → find_key Json subject key (set_response Json subject key response rows)
        ≡ some (record row { response = response })
  unfolding find_key set_response
  find_key-set_response subject key response [] row e = ground arith
  find_key-set_response subject key response (x ∷ rows) row e =
      ground (arith, find_key-set_response subject key response rows row)

  -- The key's row holds this digest and this answer.
  abbrev pub IsStored : String → String → String → Json → List (KeyRow Json) → Type 0
  IsStored subject key digest answer rows =
      (row : KeyRow Json) × (find_key Json subject key rows ≡ some row)
      × (row.fingerprint ≡ digest)
      × (row.response ≡ some answer)

  module _ {S A Request : Type 0} (fingerprint : String → Request → String)
      (to_json : A → Json) where
    -- A write that raises makes the whole call raise, so nothing of it is kept.
    pub run_once-failed :
        (subject key scope : String) (request : Request) (write : Tx S A)
        (rows : List (KeyRow Json)) (s : S) (e : Error)
        → find_key Json subject key rows ≡ none
        → write s ≡ err e
        → run_once Json fingerprint to_json subject key scope request write (rows, s) ≡ err e
    unfolding run_once claim
    run_once-failed subject key scope request write rows s e fresh failed = ground arith

    -- The first call with a key runs the write, answers with its JSON, and keeps what it wrote.
    pub run_once-first :
        (subject key scope : String) (request : Request) (write : Tx S A)
        (rows : List (KeyRow Json)) (s s' : S) (a : A)
        → find_key Json subject key rows ≡ none
        → write s ≡ ok (a, s')
        → (rows' : List (KeyRow Json)) × (run_once Json fingerprint to_json subject key scope
              request write
              (rows, s)
            ≡ ok (to_json a, (rows', s')))
    unfolding run_once claim complete
    run_once-first subject key scope request write rows s s' a fresh done = (
      set_response Json subject key (some (to_json a)) (
          record {
            subject = subject;
            key = key;
            fingerprint = fingerprint scope request;
            response = none;
          }
          ∷ rows),
      ground arith,
    )

    IsStored-first :
        (subject key scope : String) (request : Request) (write : Tx S A)
        (rows rows' : List (KeyRow Json)) (s s' : S) (answer : Json)
        → find_key Json subject key rows ≡ none
        → run_once Json fingerprint to_json subject key scope request write (rows, s)
          ≡ ok (answer, (rows', s'))
        → IsStored subject key (fingerprint scope request) answer rows'
    unfolding run_once claim complete set_response find_key
    IsStored-first subject key scope request write rows rows' s s' answer fresh e = (
      record {
        subject = subject;
        key = key;
        fingerprint = fingerprint scope request;
        response = some answer;
      },
      ground (arith, eq_iff subject subject, eq_iff key key),
      refl,
      refl,
    )

    IsStored-again :
        (subject key scope : String) (request : Request) (write : Tx S A)
        (rows rows' : List (KeyRow Json)) (s s' : S) (answer : Json) (row : KeyRow Json)
        → find_key Json subject key rows ≡ some row
        → run_once Json fingerprint to_json subject key scope request write (rows, s)
          ≡ ok (answer, (rows', s'))
        → IsStored subject key (fingerprint scope request) answer rows'
    unfolding run_once claim complete
    IsStored-again subject key scope request write rows rows' s s' answer row found e = (
      record row { response = some answer },
      ground (
        arith,
        eq_iff row.fingerprint (fingerprint scope request),
        find_key-set_response subject key (some answer) rows row found,
      ),
      ground (arith, eq_iff row.fingerprint (fingerprint scope request)),
      refl,
    )

    -- After a call that answered, its key holds the request's digest and the answer.
    pub run_once-IsStored :
        (subject key scope : String) (request : Request) (write : Tx S A)
        (session session' : Session Json S) (answer : Json)
        → run_once Json fingerprint to_json subject key scope request write session
          ≡ ok (answer, session')
        → IsStored subject key (fingerprint scope request) answer session'.0
    run_once-IsStored subject key scope request write (rows, s) (rows', s') answer e =
        elim (Option-cases (find_key Json subject key rows)) [
          | inl fresh ↦
              IsStored-first subject key scope request write rows rows' s s' answer fresh e
          | inr (row, found) ↦
              IsStored-again subject key scope request write rows rows' s s' answer row found e
        ]

    -- A key that holds an answer gives it to the same request, runs nothing and changes nothing.
    pub run_once-replay :
        (subject key scope : String) (request : Request) (write : Tx S A) (session : Session Json S)
        (answer : Json)
        → IsStored subject key (fingerprint scope request) answer session.0
        → run_once Json fingerprint to_json subject key scope request write session
          ≡ ok (answer, session)
    unfolding run_once claim
    run_once-replay subject key scope request write (rows, s) answer (row, found, same, stored) =
        ground (arith, eq_iff row.fingerprint (fingerprint scope request))

    -- Once a call with a key has answered, a retry of the same request answers the same, whatever its
    -- write would do now, and changes nothing.
    pub run_once-retry :
        (subject key scope : String) (request : Request) (write again : Tx S A)
        (session session' : Session Json S) (answer : Json)
        → run_once Json fingerprint to_json subject key scope request write session
          ≡ ok (answer, session')
        → run_once Json fingerprint to_json subject key scope request again session'
          ≡ ok (answer, session')
    run_once-retry subject key scope request write again session session' answer e =
        run_once-replay subject key scope request again session' answer
          (run_once-IsStored subject key scope request write session session' answer e)

    -- A key that holds the answer of another request, by its digest, is refused.
    run_once-other :
        (subject key scope : String) (request : Request) (write : Tx S A) (session : Session Json S)
        (other : String) (answer : Json)
        → IsStored subject key other answer session.0
        → other ≢ fingerprint scope request
        → run_once Json fingerprint to_json subject key scope request write session ≡ err key_reused
    unfolding run_once claim
    run_once-other subject key scope request write (rows, s) other answer (row, found, same, stored)
          ne =
        ground (arith, eq_iff row.fingerprint (fingerprint scope request))

    -- Once a call with a key has answered, a call with the same key whose scope and request have
    -- another digest is refused, whatever its write.
    pub run_once-reused :
        (subject key scope scope' : String) (request request' : Request) (write again : Tx S A)
        (session session' : Session Json S) (answer : Json)
        → run_once Json fingerprint to_json subject key scope request write session
          ≡ ok (answer, session')
        → fingerprint scope request ≢ fingerprint scope' request'
        → run_once Json fingerprint to_json subject key scope' request' again session'
          ≡ err key_reused
    run_once-reused subject key scope scope' request request' write again session session' answer e
          ne =
        run_once-other subject key scope' request' again session' (fingerprint scope request) answer
          (run_once-IsStored subject key scope request write session session' answer e) ne

    -- A call that answers has either replayed, and left the tables alone, or run its write.
    pub run_once-tables :
        (subject key scope : String) (request : Request) (write : Tx S A)
        (session session' : Session Json S) (answer : Json)
        → run_once Json fingerprint to_json subject key scope request write session
          ≡ ok (answer, session')
        → (session'.1 ≡ session.1) ⊎ ((a : A) × (write session.1 ≡ ok (a, session'.1)))
    unfolding run_once claim complete
    run_once-tables subject key scope request write (rows, s) (rows', s') answer e =
        elim (Result-cases (write s)) [
          | inl ((a, t), ran) ↦ elim (Option-cases (find_key Json subject key rows)) [
            | inl fresh ↦ inr (a, ground arith)
            | inr (row, found) ↦ elim (Option-cases row.response) [
              | inl unanswered ↦ inr (a, ground arith)
              | inr (stored, answered) ↦ inl (ground arith)
            ]
          ]
          | inr (problem, failed) ↦ inl (ground arith)
        ]
