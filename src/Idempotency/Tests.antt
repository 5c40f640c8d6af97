-- ===== src/Idempotency/Tests.antt =====
-- A run of `run_once` at concrete inputs, and its theorems there. The write counts its runs.
use tag2now_be.Prelude.{ℕ, ◌+◌, String, ◌≡◌, refl, some, [], ◌∷◌, Tx, ok, err, eq_iff}
use mathlib.Core.Bool.{false≢true}
use tag2now_be.Idempotency.Store.{
  Session, run_once, claim, complete, find_key, set_response, key_reused,
}
use tag2now_be.Idempotency.Once.{run_once-retry, run_once-reused}

abbrev digest : String → String → String
digest scope request = request

abbrev to_json : ℕ → ℕ
to_json n = n

abbrev tick : Tx ℕ ℕ
tick n = ok (n + 1, n + 1)

abbrev before : Session ℕ ℕ
before = ([], 7)

abbrev stored : Session ℕ ℕ
stored = (record { subject = "ann"; key = "k"; fingerprint = "a"; response = some 8 } ∷ [], 8)

first_run : run_once ℕ digest to_json "ann" "k" "s" "a" tick before ≡ ok (8, stored)
unfolding run_once claim complete find_key set_response
first_run = refl

run_once-retry_example : run_once ℕ digest to_json "ann" "k" "s" "a" tick stored ≡ ok (8, stored)
run_once-retry_example =
    run_once-retry ℕ digest to_json "ann" "k" "s" "a" tick tick before stored 8 first_run

run_once-reused_example : run_once ℕ digest to_json "ann" "k" "s" "b" tick stored ≡ err key_reused
run_once-reused_example =
    run_once-reused ℕ digest to_json "ann" "k" "s" "s" "a" "b" tick tick before stored 8 first_run
      (λ p. false≢true ((eq_iff "a" "b").1 p))
