-- ===== src/Cache/Laws.antt =====
-- What a reader of the cache of src/shared/cache.py gets after each method.
use tag2now_be.Prelude.{
  ℕ, ◌+◌, ◌≡◌, refl, String, Bool, true, ◌&&◌, Option, none, some, List, [], ◌∷◌, arith, leb,
  str_eq, eq_iff, if◌then◌else◌, any_of, is_some,
}
use tag2now_be.Prelude.Dict
use tag2now_be.Prelude.Dict.{Dict}
use tag2now_be.Cache.Store.{Entry, get, set, doomed, pop_all, delete_pattern}

module _ {V : Type 0} (of_text : String → V) where
  -- What a read at a time answers.
  abbrev pub read : String → ℕ → Dict Entry → Option V
  read key now store = (get of_text key now store).0

  -- A read drops an expired entry and no other: at the same or a later time, what any key read is
  -- what it would have read without it.
  pub get-get :
      (key other : String) (now later : ℕ) (store : Dict Entry)
      → leb now later ≡ true
      → read other later (get of_text key now store).1 ≡ read other later store
  unfolding get
  get-get key other now later store h =
      ground (arith, Dict.lookup-erase key other store, eq_iff key other)

  lookup-pop_all :
      (key : String) (keys : List String) (store : Dict Entry)
      → Dict.lookup key (pop_all keys store)
        ≡ (if any_of (λ k. str_eq k key) keys then none else Dict.lookup key store)
  unfolding pop_all any_of
  lookup-pop_all key [] store = refl
  lookup-pop_all key (k ∷ keys) store =
      ground (arith, lookup-pop_all key keys (Dict.erase k store), Dict.lookup-erase k key store)

  any_of-doomed :
      (matches : String → Bool) (key : String) (store : Dict Entry)
      → any_of (λ k. str_eq k key) (doomed matches store)
        ≡ (matches key && is_some (Dict.lookup key store))
  unfolding doomed any_of Dict.lookup
  any_of-doomed matches key [] = ground arith
  any_of-doomed matches key ((k, _) ∷ store) =
      ground (arith, any_of-doomed matches key store, eq_iff k key)

  -- After a deletion by pattern no matching key has a value, and every other key read as before.
  pub get-delete_pattern :
      (matches : String → Bool) (key : String) (now : ℕ) (store : Dict Entry)
      → read key now (delete_pattern matches store)
        ≡ (if matches key then none else read key now store)
  unfolding get delete_pattern
  get-delete_pattern matches key now store =
      ground
        (arith, lookup-pop_all key (doomed matches store) store, any_of-doomed matches key store)

module _ {V : Type 0} (to_text : V → String) (of_text : String → V)
    (round_trip : (v : V) → of_text (to_text v) ≡ v) where
  -- With a JSON round trip: a read of the key that was set answers the value until the time to live
  -- is over, and nothing from then on; every other key reads as before.
  pub get-set :
      (key other : String) (value : V) (ttl now later : ℕ) (store : Dict Entry)
      → read of_text other later (set to_text key value ttl now store) ≡ (
          if str_eq key other
          then (if leb (now + ttl) later then none else some value)
          else read of_text other later store)
  unfolding get set
  get-set key other value ttl now later store = ground (
    arith,
    round_trip value,
    Dict.lookup-insert key other (record { value_json = to_text value; expire_at = now + ttl })
        store,
  )
