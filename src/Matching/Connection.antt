-- ===== src/Matching/Connection.antt =====
-- matching/rpcn_lifecycle.py: one client shared by all calls. The lock makes each call one step. The
-- client's library is read through its results: what `connect`, `login` and the caller's block end
-- with, and whether a socket is open by then. `calls` is the list of the connections that were opened,
-- closed and left open by a factory that raised, the newest first. Times are whole ticks of the
-- monotonic clock; `failed_at` is `none` for minus infinity.
use tag2now_be.Prelude.{
  ℕ, ◌+◌, ◌-◌, ◌<◌, ◌≡◌, refl, String, Bool, true, false, Option, none, some, List, [], ◌∷◌, arith,
  ltb, to_ℕ, count_of, if◌then◌else◌,
}

-- How code that talks to the server ends: `RpcnError` and `OSError` are both a `failure`.
pub data Outcome (A : Type 0) : Type 0 where
  done : A → Outcome A
  failure : String → Outcome A
  other_exception : String → Outcome A

-- How a call ends. `lost` and `cooling` are both `RpcnUnavailableError`.
pub data Answer (A : Type 0) : Type 0 where
  answered : A → Answer A
  lost : String → Answer A
  cooling : ℕ → Answer A
  raised : String → Answer A

-- How a factory or `connect` ends; one that raises may have opened a socket before.
pub data Attempt (C : Type 0) : Type 0 where
  made : C → Attempt C
  fails : Option C → String → Attempt C
  raises : Option C → String → Attempt C

pub data Call (C : Type 0) : Type 0 where
  opens : C → Call C
  closes : C → Call C
  strands : C → Call C

pub record SharedClient (C : Type 0) : Type 0 where
  pub client : Option C
  pub failed_at : Option ℕ
  pub calls : List (Call C)

-- `_ensure_cooled_down`: what remains of the pause.
unfoldable pub remaining : ℕ → ℕ → Option ℕ → ℕ
remaining cooldown now none = 0
remaining cooldown now (some failed_at) = (failed_at + cooldown) - now

-- What callers do.
pub data Request (C A : Type 0) : Type 0 where
  calling : ℕ → ℕ → Attempt C → (C → Outcome (Unit {0})) → (C → Outcome A) → Request C A
  shutting_down : Request C A

module _ {C : Type 0} where
  abbrev pub new_client : SharedClient C
  new_client = record { client = none; failed_at = none; calls = [] }

  abbrev closing : Option C → List (Call C) → List (Call C)
  closing none calls = calls
  closing (some c) calls = closes c ∷ calls

  -- Whether disconnecting raises does not matter: the client is dropped anyway.
  unfoldable pub shutdown : SharedClient C → SharedClient C
  shutdown s = record s { client = none; calls = closing s.client s.calls }

  unfoldable pub discard : ℕ → SharedClient C → SharedClient C
  discard now s = record s { client = none; failed_at = some now; calls = closing s.client s.calls }

  -- The block of the `with`, and `except (RpcnError, OSError)`.
  abbrev finish : {A : Type 0} → ℕ → Outcome A → SharedClient C → Answer A × SharedClient C
  finish later (done a) s = (answered a, s)
  finish later (failure e) s = (lost e, discard later s)
  finish later (other_exception e) s = (raised e, s)

  -- `create_client`: the client is not disconnected when its login raises.
  unfoldable pub create_client : Attempt C → (C → Outcome (Unit {0})) → Attempt C
  create_client (made c) login = elim (login c) [
    | done _ ↦ made c
    | failure e ↦ fails (some c) e
    | other_exception e ↦ raises (some c) e
  ]
  create_client (fails socket e) login = fails socket e
  create_client (raises socket e) login = raises socket e

  abbrev stranding : Option C → List (Call C) → List (Call C)
  stranding none calls = calls
  stranding (some c) calls = strands c ∷ opens c ∷ calls

  abbrev finish_new :
      {A : Type 0} → ℕ → Attempt C → (C → Outcome A) → SharedClient C → Answer A × SharedClient C
  finish_new later (made c) body s =
      finish later (body c) (record s { client = some c; calls = opens c ∷ s.calls })
  finish_new later (fails socket e) body s =
      (lost e, discard later (record s { calls = stranding socket s.calls }))
  finish_new later (raises socket e) body s =
      (raised e, record s { calls = stranding socket s.calls })

  -- One `with api_client()`: the clock reads `now` before it connects and `later` at a failure;
  -- `connect` and `login` are how those end if they are called.
  unfoldable pub api_client :
      {A : Type 0}
      → ℕ
      → ℕ
      → ℕ
      → Attempt C
      → (C → Outcome (Unit {0}))
      → (C → Outcome A)
      → SharedClient C
      → Answer A × SharedClient C
  unfolding remaining discard create_client
  api_client cooldown now later connect login body s = elim s.client [
    | some c ↦ finish later (body c) s
    | none ↦
        let pause = remaining cooldown now s.failed_at in
        let fresh = finish_new later (create_client connect login) body s in
        if ltb 0 pause then (cooling pause, s) else fresh
  ]

  unfoldable pub opens_of : (C → Bool) → Call C → Bool
  opens_of p (opens c) = p c
  opens_of p _ = false

  unfoldable pub closes_of : (C → Bool) → Call C → Bool
  closes_of p (closes c) = p c
  closes_of p _ = false

  unfoldable pub strands_of : (C → Bool) → Call C → Bool
  strands_of p (strands c) = p c
  strands_of p _ = false

  abbrev pub holds : (C → Bool) → Option C → ℕ
  holds p none = 0
  holds p (some c) = to_ℕ (p c)

  abbrev pub opened : SharedClient C → ℕ
  opened s = count_of (opens_of (λ _. true)) s.calls

  -- Of any kind of connections, as many were opened as were closed, left open by a factory that raised,
  -- or are held.
  abbrev pub IsBalanced : (C → Bool) → SharedClient C → Type 0
  IsBalanced p s =
      count_of (opens_of p) s.calls
      ≡ count_of (closes_of p) s.calls + count_of (strands_of p) s.calls + holds p s.client

  unfoldable pub serve : {A : Type 0} → ℕ → Request C A → SharedClient C → SharedClient C
  serve cooldown (calling now later connect login body) s =
      (api_client cooldown now later connect login body s).1
  serve cooldown shutting_down s = shutdown s

  unfoldable pub serve_all : {A : Type 0} → ℕ → List (Request C A) → SharedClient C → SharedClient C
  serve_all cooldown [] s = s
  serve_all cooldown (r ∷ rs) s = serve_all cooldown rs (serve cooldown r s)

  module _ (p : C → Bool) where
    shutdown-IsBalanced : (s : SharedClient C) → IsBalanced p s → IsBalanced p (shutdown s)
    unfolding shutdown count_of opens_of closes_of strands_of
    shutdown-IsBalanced s h = ground arith

    api_client-IsBalanced :
        {A : Type 0} (cooldown now later : ℕ) (connect : Attempt C) (login : C → Outcome (Unit {0}))
        (body : C → Outcome A) (s : SharedClient C)
        → IsBalanced p s
        → IsBalanced p (api_client cooldown now later connect login body s).1
    unfolding api_client discard create_client count_of opens_of closes_of strands_of
    api_client-IsBalanced cooldown now later connect login body s h = ground arith

    serve_all-IsBalanced-from :
        {A : Type 0} (cooldown : ℕ) (rs : List (Request C A)) (s : SharedClient C)
        → IsBalanced p s
        → IsBalanced p (serve_all cooldown rs s)
    unfolding serve_all serve
    serve_all-IsBalanced-from cooldown [] s h = h
    serve_all-IsBalanced-from cooldown (calling now later connect login body ∷ rs) s h =
        serve_all-IsBalanced-from cooldown rs (api_client cooldown now later connect login body s).1
          (api_client-IsBalanced cooldown now later connect login body s h)
    serve_all-IsBalanced-from cooldown (shutting_down ∷ rs) s h =
        serve_all-IsBalanced-from cooldown rs (shutdown s) (shutdown-IsBalanced s h)

    -- Whatever calls are made, in whatever order and however they end, each connection that was opened
    -- has been closed, is the one of the client that is held, or was left open by a `connect` or a
    -- `login` that raised: any of them is counted as often as opened as it is counted in one of those.
    pub serve_all-IsBalanced :
        {A : Type 0} (cooldown : ℕ) (rs : List (Request C A))
        → IsBalanced p (serve_all cooldown rs new_client)
    unfolding count_of
    serve_all-IsBalanced cooldown rs = serve_all-IsBalanced-from cooldown rs new_client refl

  module _ {A : Type 0} (cooldown now later : ℕ) (connect : Attempt C)
      (login : C → Outcome (Unit {0})) (body : C → Outcome A) (s s' : SharedClient C) where
    -- After a failure no call within the cooldown touches the server, whatever it would do: it is told
    -- what remains of the pause.
    pub api_client-cooling :
        (e : String) (now' later' : ℕ) (connect' : Attempt C) (login' : C → Outcome (Unit {0}))
        (body' : C → Outcome A)
        → api_client cooldown now later connect login body s ≡ (lost e, s')
        → now' < later + cooldown
        → api_client cooldown now' later' connect' login' body' s'
          ≡ (cooling ((later + cooldown) - now'), s')
    unfolding api_client discard remaining
    api_client-cooling e now' later' connect' login' body' h soon = ground arith

    -- After an answer the client is kept: the next call opens no connection.
    pub api_client-reused :
        (a : A) (now' later' : ℕ) (connect' : Attempt C) (login' : C → Outcome (Unit {0}))
        (body' : C → Outcome A)
        → api_client cooldown now later connect login body s ≡ (answered a, s')
        → opened (api_client cooldown now' later' connect' login' body' s').1 ≡ opened s'
    unfolding api_client discard count_of opens_of
    api_client-reused a now' later' connect' login' body' h = ground arith
