-- ===== src/Cache/Store.antt =====
-- `DictCache` of src/shared/cache.py. A method is one step here but for `get` and `delete_pattern`,
-- which take the lock twice: their two halves are definitions of their own, between which other
-- threads may run. Values are JSON texts; `to_text` and `of_text` stand for `json.dumps` and
-- `json.loads`, `matches` for `fnmatch.fnmatch`; times are whole ticks of the monotonic clock.
use tag2now_be.Prelude.{ℕ, ◌+◌, String, Bool, Option, none, some, List, [], ◌∷◌, leb, if◌then◌else◌}
use tag2now_be.Prelude.Dict
use tag2now_be.Prelude.Dict.{Dict}

-- A value's text and when it expires.
pub record Entry : Type 0 where
  pub value_json : String
  pub expire_at : ℕ

-- `time.monotonic() >= expire_at`.
abbrev pub has_expired : ℕ → Entry → Bool
has_expired now entry = leb entry.expire_at now

abbrev pop : String → Dict Entry → Dict Entry
pop key store = Dict.erase key store

-- The second half of `get`, of the entry that the first half has read.
unfoldable pub finish_get :
    {V : Type 0} → (String → V) → String → ℕ → Option Entry → Dict Entry → Option V × Dict Entry
finish_get of_text key now none store = (none, store)
finish_get of_text key now (some entry) store =
    if has_expired now entry
    then (none, pop key store)
    else (some (of_text entry.value_json), store)

unfoldable pub get : {V : Type 0} → (String → V) → String → ℕ → Dict Entry → Option V × Dict Entry
unfolding finish_get
get of_text key now store = finish_get of_text key now (Dict.lookup key store) store

unfoldable pub set : {V : Type 0} → (V → String) → String → V → ℕ → ℕ → Dict Entry → Dict Entry
set to_text key value ttl now store =
    Dict.insert key (record { value_json = to_text value; expire_at = now + ttl }) store

unfoldable pub delete : String → Dict Entry → Dict Entry
delete key store = pop key store

-- The keys that the first half of `delete_pattern` finds.
unfoldable pub doomed : (String → Bool) → Dict Entry → List String
doomed matches [] = []
doomed matches ((key, _) ∷ store) =
    let rest = doomed matches store in if matches key then key ∷ rest else rest

-- Its second half.
unfoldable pub pop_all : List String → Dict Entry → Dict Entry
pop_all [] store = store
pop_all (key ∷ keys) store = pop_all keys (pop key store)

unfoldable pub delete_pattern : (String → Bool) → Dict Entry → Dict Entry
unfolding doomed pop_all
delete_pattern matches store = pop_all (doomed matches store) store
