-- ===== src/Records/Pages.antt =====
-- Reading the matches page by page: each page asks for what stands before the last one's `next_before`.
use tag2now_be.Prelude.{
  ℕ, zero, suc, ◌+◌, ◌-◌, ◌≡◌, ◌≤◌, ◌<◌, refl, sym, ap, ◌∙◌, String, Bool, true, false, ◌&&◌,
  Option, none, some, List, [], ◌∷◌, ◌++◌, map, arith, Table, select, sort_by, filter_by, take,
  drop, length, ltb, IsKeyed, All, All-mono, All-select, All-sort_by, if◌then◌else◌, inl, inr,
  Bool-cases, select-IsKeyed,
}
use tag2now_be.Records.Rows.{MatchRow, Tables}
use tag2now_be.Records.Newest.{
  IsNewestFirst, filter_by-sort_by, select-filter_by, sort_by-IsNewestFirst, key_at, key_at-below,
  key_at-some, filter_by-drop, filter_by-twice,
}
use tag2now_be.Records.Listing.{
  is_before, is_listed, higher_id, recorded_match, RecordedMatch, match_out, list_matches,
  MatchRecordOut, id_at, list_page,
}

abbrev pub out : Tables → ℕ × MatchRow → MatchRecordOut
out db e = match_out (recorded_match db e)

module _ (ilike : String → String → Bool) (npid name_query : Option String) (db : Tables) where
  -- Every listed match that stands before an id, newest first.
  unfoldable pub all_before : Option ℕ → Table MatchRow
  all_before before = sort_by higher_id (
      select (λ id match. is_before before id && is_listed ilike npid name_query db match)
        db.matches)

  all_before-filter_by :
      (before : Option ℕ)
      → all_before before ≡ filter_by (λ e. is_before before e.0) (all_before none)
  unfolding all_before
  all_before-filter_by before =
      let listed = is_listed ilike npid name_query db in
      let every = select (λ _. listed) db.matches in
      rw (select-filter_by (is_before before) listed db.matches)
        (sym (filter_by-sort_by (λ e. is_before before e.0) every))

  all_before-IsNewestFirst :
      (before : Option ℕ) → IsKeyed db.matches → IsNewestFirst (all_before before)
  unfolding all_before
  all_before-IsNewestFirst before keyed =
      let listed = λ (id : ℕ) (match : MatchRow).
        is_before before id && is_listed ilike npid name_query db match in
      sort_by-IsNewestFirst (select listed db.matches) (select-IsKeyed listed db.matches keyed)

  all_before-below : (c : ℕ) → All (λ e. e.0 < c) (all_before (some c))
  unfolding all_before
  all_before-below c =
      let listed = λ (id : ℕ) (match : MatchRow).
        is_before (some c) id && is_listed ilike npid name_query db match in
      All-sort_by higher_id (λ e. e.0 < c) (select listed db.matches)
        (All-mono (select listed db.matches) (λ e h. ground arith) (All-select listed db.matches))

  is_before-key_at :
      (before : Option ℕ) (n b : ℕ)
      → key_at n (all_before before) ≡ some b
      → is_before before b ≡ true
  is_before-key_at none n b e = refl
  is_before-key_at (some c) n b e =
      ground (arith, key_at-below c n b (all_before (some c)) (all_before-below c) e)

  -- The next page starts where this one ends.
  all_before-next :
      (before : Option ℕ) (n b : ℕ)
      → IsKeyed db.matches
      → key_at n (all_before before) ≡ some b
      → all_before (some b) ≡ drop (suc n) (all_before before)
  all_before-next before n b keyed e =
      all_before-filter_by (some b)
      ∙ sym (filter_by-twice before b (all_before none) (is_before-key_at before n b e))
      ∙ sym (ap (filter_by (λ e. is_before (some b) e.0)) (all_before-filter_by before))
      ∙ filter_by-drop n b (all_before before) (all_before-IsNewestFirst before keyed) e

module _ (f : ℕ × MatchRow → RecordedMatch) (named : (e : ℕ × MatchRow) → (f e).id ≡ e.0) where
  id_at-take : (n m : ℕ) (xs : Table MatchRow) → n < m → id_at n (map f (take m xs)) ≡ key_at n xs
  unfolding key_at
  id_at-take n zero xs h = absurd (ground arith)
  id_at-take zero (suc m) [] h = refl
  id_at-take (suc n) (suc m) [] h = refl
  id_at-take zero (suc m) (x ∷ xs) h = ground (arith, named x)
  id_at-take (suc n) (suc m) (x ∷ xs) h = id_at-take n m xs (ground arith)

  length-take_more :
      (n : ℕ) (xs : Table MatchRow) → ltb n (length (map f (take (suc n) xs))) ≡ ltb n (length xs)
  length-take_more zero [] = refl
  length-take_more (suc n) [] = refl
  length-take_more zero (x ∷ xs) = ground arith
  length-take_more (suc n) (x ∷ xs) = ground (arith, length-take_more n xs)

  take-take_more :
      (n : ℕ) (xs : Table MatchRow) → take n (map f (take (suc n) xs)) ≡ map f (take n xs)
  take-take_more zero xs = refl
  take-take_more (suc n) [] = refl
  take-take_more (suc n) (x ∷ xs) = ap (λ ys. f x ∷ ys) (take-take_more n xs)

map-map :
    (f : ℕ × MatchRow → RecordedMatch) (g : RecordedMatch → MatchRecordOut) (xs : Table MatchRow)
    → map g (map f xs) ≡ map (λ e. g (f e)) xs
map-map f g [] = refl
map-map f g (x ∷ xs) = ap (λ ys. g (f x) ∷ ys) (map-map f g xs)

recorded_match-id : (db : Tables) (e : ℕ × MatchRow) → (recorded_match db e).id ≡ e.0
unfolding recorded_match
recorded_match-id db e = refl

drop_all : (n : ℕ) (xs : Table MatchRow) → ltb n (length xs) ≡ false → drop n xs ≡ []
drop_all zero [] h = refl
drop_all zero (x ∷ xs) h = absurd (ground arith)
drop_all (suc n) [] h = refl
drop_all (suc n) (x ∷ xs) h = drop_all n xs (ground arith)

take-drop : (n : ℕ) (xs : Table MatchRow) → take n xs ++ drop n xs ≡ xs
take-drop zero xs = refl
take-drop (suc n) [] = refl
take-drop (suc n) (x ∷ xs) = ap (λ ys. x ∷ ys) (take-drop n xs)

length-drop : (n : ℕ) (xs : Table MatchRow) → length (drop n xs) ≡ length xs - n
length-drop zero xs = ground arith
length-drop (suc n) [] = ground arith
length-drop (suc n) (x ∷ xs) = ground (arith, length-drop n xs)

map-append :
    (f : ℕ × MatchRow → MatchRecordOut) (xs ys : Table MatchRow)
    → map f (xs ++ ys) ≡ map f xs ++ map f ys
map-append f [] ys = refl
map-append f (x ∷ xs) ys = ap (λ zs. f x ∷ zs) (map-append f xs ys)

module _ (ilike : String → String → Bool) (npid name_query : Option String) (limit : ℕ)
    (db : Tables) where
  list_matches-found :
      (before : Option ℕ)
      → list_matches ilike npid name_query before (limit + 1) db
        ≡ map (recorded_match db) (take (suc limit) (all_before ilike npid name_query db before))
  unfolding list_matches all_before
  list_matches-found before = let more : limit + 1 ≡ suc limit = omega arith in rw more refl

  page-matches :
      (before : Option ℕ)
      → (list_page ilike npid name_query before limit db).matches
        ≡ map (out db) (take limit (all_before ilike npid name_query db before))
  unfolding list_page
  page-matches before =
      let xs = all_before ilike npid name_query db before in
      rw
        (
          list_matches-found before,
          take-take_more (recorded_match db) (recorded_match-id db) limit xs,
        )
        (map-map (recorded_match db) match_out (take limit xs))

  page-next_before :
      (before : Option ℕ)
      → 1 ≤ limit
      → (list_page ilike npid name_query before limit db).next_before ≡ (
          if ltb limit (length (all_before ilike npid name_query db before))
          then key_at (limit - 1) (all_before ilike npid name_query db before)
          else none)
  unfolding list_page
  page-next_before before h =
      let xs = all_before ilike npid name_query db before in
      rw
        (
          list_matches-found before,
          length-take_more (recorded_match db) (recorded_match-id db) limit xs,
          id_at-take (recorded_match db) (recorded_match-id db) (limit - 1) (suc limit) xs
              (omega arith),
        )
        refl

  abbrev next_pages : (Option ℕ → List MatchRecordOut) → Option ℕ → List MatchRecordOut
  next_pages pages none = []
  next_pages pages (some b) = pages (some b)

  -- The pages' matches, one after another, for at most `fuel` pages.
  unfoldable pub pages_from : ℕ → Option ℕ → List MatchRecordOut
  unfolding list_page
  pages_from zero before = []
  pages_from (suc fuel) before =
      let page = list_page ilike npid name_query before limit db in
      page.matches ++ next_pages (pages_from fuel) page.next_before

  -- A page and what follows it.
  page-rest :
      (before : Option ℕ) (rest : List MatchRecordOut)
      → rest ≡ map (out db) (drop limit (all_before ilike npid name_query db before))
      → (list_page ilike npid name_query before limit db).matches ++ rest
        ≡ map (out db) (all_before ilike npid name_query db before)
  page-rest before rest e =
      let xs = all_before ilike npid name_query db before in
      rw
        (
          page-matches before,
          e,
          ← map-append (out db) (take limit xs) (drop limit xs),
          take-drop limit xs,
        )
        refl

  pages_from-whole :
      (fuel : ℕ) (before : Option ℕ)
      → IsKeyed db.matches
      → 1 ≤ limit
      → length (all_before ilike npid name_query db before) < fuel
      → pages_from fuel before ≡ map (out db) (all_before ilike npid name_query db before)
  unfolding pages_from
  pages_from-whole zero before keyed h enough = absurd (ground arith)
  pages_from-whole (suc fuel) before keyed h enough =
      let xs = all_before ilike npid name_query db before in
      elim (Bool-cases (ltb limit (length xs))) [
        | inl more ↦
            let (b, at) = key_at-some (limit - 1) xs (ground arith) in
            let last : suc (limit - 1) ≡ limit = omega arith in
            let rest : all_before ilike npid name_query db (some b) ≡ drop limit xs =
              rw (← last)
                (all_before-next ilike npid name_query db before (limit - 1) b keyed at) in
            let next : (list_page ilike npid name_query before limit db).next_before ≡ some b =
              rw (page-next_before before h, more) at in
            rw next (
              page-rest before (pages_from fuel (some b)) (
                pages_from-whole fuel (some b) keyed h
                  (rw rest (ground (arith, length-drop limit xs)))
                ∙ ap (map (out db)) rest))
        | inr last ↦
            let next : (list_page ilike npid name_query before limit db).next_before ≡ none =
              rw (page-next_before before h, last) refl in
            rw next (page-rest before [] (rw (drop_all limit xs last) refl))
      ]

  -- Following `next_before` from the first page reads every match that is listed, each once and newest
  -- first, when there is fuel for one page more than there are such matches.
  pub list_page-whole :
      (fuel : ℕ)
      → IsKeyed db.matches
      → 1 ≤ limit
      → length (all_before ilike npid name_query db none) < fuel
      → (pages_from fuel none ≡ map (out db) (all_before ilike npid name_query db none))
        × IsNewestFirst (all_before ilike npid name_query db none)
  list_page-whole fuel keyed h enough = (
    pages_from-whole fuel none keyed h enough,
    all_before-IsNewestFirst ilike npid name_query db none keyed,
  )
