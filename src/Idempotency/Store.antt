-- ===== src/Idempotency/Store.antt =====
-- idempotency/service.py and idempotency/adapters/postgresql.py: a write that runs at most once for
-- each key. The digest of idempotency/domain.py (`json.dumps` and SHA-256) and pydantic's
-- `to_jsonable_python` are the arguments `fingerprint` and `to_json`; `Json` is the type of answers.
use tag2now_be.Prelude.{
  String, Bool, ◌&&◌, Option, none, some, List, [], ◌∷◌, Error, Result, ok, err, unprocessable, Tx,
  ◌>>=◌, ◌>>◌, pure, str_eq, if◌then◌else◌,
}

-- `IdempotencyKeyReusedError` is an `UnprocessableError`.
abbrev pub key_reused : Error
key_reused = unprocessable "이미 다른 요청에 쓰인 요청 키입니다. 새로고침 후 다시 시도해 주세요."

module _ (Json : Type 0) where
  -- A row of `idempotency_keys`, of which (subject, key) is unique.
  pub record KeyRow : Type 0 where
    pub subject : String
    pub key : String
    pub fingerprint : String
    pub response : Option Json

  abbrev pub is_key : String → String → KeyRow → Bool
  is_key subject key row = str_eq row.subject subject && str_eq row.key key

  unfoldable pub find_key : String → String → List KeyRow → Option KeyRow
  find_key subject key [] = none
  find_key subject key (row ∷ rows) =
      if is_key subject key row then some row else find_key subject key rows

  unfoldable pub set_response : String → String → Option Json → List KeyRow → List KeyRow
  set_response subject key response [] = []
  set_response subject key response (row ∷ rows) =
      (if is_key subject key row then record row { response = response } else row)
      ∷ set_response subject key response rows

  -- What the session holds: the keys, and the tables that the caller's write is about.
  abbrev pub Session : Type 0 → Type 0
  Session S = List KeyRow × S

  abbrev new_key : String → String → String → KeyRow
  new_key subject key fingerprint = record {
    subject = subject;
    key = key;
    fingerprint = fingerprint;
    response = none;
  }

  module _ {S : Type 0} where
    -- The rest of `claim` after the insert, by the row that it conflicts with.
    abbrev claim_against : Option KeyRow → String → String → String → Tx (Session S) (Option Json)
    claim_against none subject key fingerprint (rows, s) =
        ok (none, (new_key subject key fingerprint ∷ rows, s))
    claim_against (some row) subject key fingerprint (rows, s) =
        if str_eq row.fingerprint fingerprint then ok (row.response, (rows, s)) else err key_reused

    unfoldable pub claim : String → String → String → Tx (Session S) (Option Json)
    claim subject key fingerprint s =
        claim_against (find_key subject key s.0) subject key fingerprint s

    unfoldable pub complete : String → String → Json → Tx (Session S) (Unit {0})
    complete subject key response (rows, s) =
        ok (tt, (set_response subject key (some response) rows, s))

    -- A write of the tables alone, inside the session.
    abbrev with_keys : {A : Type 0} → List KeyRow → Result (A × S) → Result (A × Session S)
    with_keys rows (ok (a, s)) = ok (a, (rows, s))
    with_keys rows (err e) = err e

    abbrev pub on_tables : {A : Type 0} → Tx S A → Tx (Session S) A
    on_tables write (rows, s) = with_keys rows (write s)

    module _ {A Request : Type 0} (fingerprint : String → Request → String)
        (to_json : A → Json) where
      -- The rest of `run_once` after the claim.
      abbrev answer_once : String → String → Tx S A → Option Json → Tx (Session S) Json
      answer_once subject key write (some stored) = pure stored
      answer_once subject key write none = do
        answer ← on_tables write
        complete subject key (to_json answer)
        pure (to_json answer)

      unfoldable pub run_once : String → String → String → Request → Tx S A → Tx (Session S) Json
      run_once subject key scope request write = do
        stored ← claim subject key (fingerprint scope request)
        answer_once subject key write stored
