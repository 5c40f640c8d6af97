-- ===== src/Records/Tests.antt =====
-- Runs of the match records at concrete inputs, and their theorems there.
use tag2now_be.Prelude.{
  ℕ, ◌+◌, ◌*◌, ◌≡◌, ◌<◌, ◌&&◌, refl, String, Bool, true, false, some, none, Option, [], ◌∷◌, arith,
  Error, integrity_error, ok, count, select, sort_by, find?, insert, map, length, is_some, lookup,
  ltb, any_of, ◌==◌, ◌⊎◌, if◌then◌else◌,
}
use tag2now_be.Prelude.Dict
use tag2now_be.Time.{Instant, day, minute}
use tag2now_be.History.Rows.{RankMatchSnapshotRow}
use tag2now_be.History.Repository.{find_rank_room, is_live_room}
use tag2now_be.Records.Domain.{
  win, p1, PlayerSave, compare, played, raised, raised_from, covers, count_for, tally_of, side_of,
  winner, one_match, is_in, rank_going_in,
}
use tag2now_be.Records.Comparing.{played_iff}
use tag2now_be.Records.Rows.{MatchEventRow, pending, done, MatchRow, Tables}
use tag2now_be.Records.Repository.{
  is_due, state_row, to_save, event_row, fill_side, nearest_match, add_match, claim_event,
  finish_event, update_event,
}
use tag2now_be.Records.Service.{compare_save, compare_all, resolve, attempt, process_next}
use tag2now_be.Records.Invariant.{IsResolved}
use tag2now_be.Records.Queue.{work, drain, drain-idle}
use tag2now_be.Records.Capturing.{compare_all-again}
use tag2now_be.Records.Runs.{Reach, here, next, comparing, processing, records-IsResolved}
use tag2now_be.Records.Listing.{is_listed}
use tag2now_be.Records.Newest.{IsNewestFirst}
use tag2now_be.Records.Pages.{all_before, pages_from, out, list_page-whole}

abbrev at : ℕ → Instant
at n = 1000 * day + n * minute

abbrev save : String → ℕ → ℕ → ℕ → PlayerSave
save npid data_id wins losses = record {
  npid = npid;
  data_id = data_id;
  saved_at = at data_id;
  wins = wins;
  losses = losses;
  tallies = (3, record { wins = wins; losses = losses; rank = some 12 }) ∷ [];
  entered_chars = [];
}

played_iff_example : is_in 3 (played (save "ann" 1 4 2) (save "ann" 2 5 2) win) ≡ (
    is_some (lookup 3 (save "ann" 2 5 2).tallies)
    && ltb
        (count_for (tally_of (save "ann" 1 4 2).tallies 3) win)
        (count_for (tally_of (save "ann" 2 5 2).tallies 3) win))
played_iff_example = played_iff (save "ann" 1 4 2) (save "ann" 2 5 2) win 3 (refl, tt)

abbrev room : RankMatchSnapshotRow
room = record {
  room_id = 4;
  created_dt = at 0;
  last_seen_at = at 9;
  match_date = 1000;
  rank_id = 12;
  user1_npid = "ann";
  user1_online_name = "Ann";
  user2_npid = "bob";
  user2_online_name = "Bob";
}

abbrev no_rows : Tables
no_rows = record {
  save_states = [];
  match_events = [];
  matches = [];
  history = record {
    rank_match_snapshots = (8, room) ∷ [];
    daily_matched_players = [];
    activity_snapshots = [];
  };
}

no_rows-IsResolved : IsResolved no_rows
unfolding count
no_rows-IsResolved = record {
  events_keyed = tt;
  matches_keyed = tt;
  rooms_keyed = (refl, tt);
  once = λ npid data_id. omega arith;
  placed = λ id. refl;
  fits = λ k row e. absurd (ground arith);
}

compare_all-again_example :
    let done_so =
      compare_all 3 at
        (some (save "ann" 2 5 2) ∷ [])
        (compare_all 1 at (some (save "ann" 1 4 2) ∷ none ∷ []) no_rows) in
    compare_all 9 at (some (save "ann" 1 4 2) ∷ none ∷ []) done_so ≡ done_so
compare_all-again_example =
    compare_all-again 1 3 9 at at at (some (save "ann" 1 4 2) ∷ none ∷ [])
      (some (save "ann" 2 5 2) ∷ []) no_rows

abbrev event : MatchEventRow
event = record {
  npid = "ann";
  data_id = 2;
  outcome = win;
  chars = 3 ∷ [];
  ranks = some (some 12 ∷ []);
  saved_at = at 2;
  status = pending;
  attempts = 0;
  available_at = at 2;
  last_error = none;
}

abbrev first_seen : Tables
first_seen = record no_rows { save_states = ("ann", state_row none (save "ann" 1 4 2) false) ∷ [] }

abbrev queued : Tables
queued = record no_rows {
  save_states =
      ("ann", state_row (some (state_row none (save "ann" 1 4 2) false)) (save "ann" 2 5 2) false)
      ∷ [];
  match_events = (1, event) ∷ [];
}

first-save : compare_save 1 (at 1) (save "ann" 1 4 2) no_rows ≡ ok (tt, first_seen)
unfolding compare_save Dict.insert Dict.lookup
first-save = refl

second-save : compare_save 1 (at 2) (save "ann" 2 5 2) first_seen ≡ ok (tt, queued)
unfolding compare_save Dict.insert Dict.lookup state_row to_save compare one_match played raised
    raised_from covers event_row insert find? sort_by any_of rank_going_in count_for
second-save = refl

abbrev recorded : Tables
recorded = record queued {
  match_events = (1, record event { status = done }) ∷ [];
  matches =
      (
        5,
        record {
          played_at = at 2;
          room_snapshot_id = some 8;
          p1_npid = "ann";
          p2_npid = some "bob";
          winner = p1;
          p1_event_id = some 1;
          p2_event_id = none;
        },
      )
      ∷ [];
}

resolve-first : process_next 5 none none (at 3) queued ≡ ok (true, recorded)
unfolding process_next claim_event attempt resolve finish_event update_event fill_side nearest_match
    add_match find_rank_room is_live_room side_of winner select sort_by find? insert
resolve-first = refl

queued-Reach : Reach no_rows queued
queued-Reach =
    next first_seen queued
      (next no_rows first_seen here
        (comparing 1 (at 1) (save "ann" 1 4 2) no_rows first_seen refl first-save))
      (comparing 1 (at 2) (save "ann" 2 5 2) first_seen queued refl second-save)

records-IsResolved_example : IsResolved recorded
records-IsResolved_example = records-IsResolved no_rows recorded no_rows-IsResolved (
    next queued recorded queued-Reach
      (processing 5 none none (at 3) true queued recorded refl resolve-first))

abbrev down : ℕ → Option Error
down n = some integrity_error

-- The fifth call loses its connection.
abbrev lost_at_five : ℕ → Option Error
lost_at_five n = if n == 5 then some integrity_error else none

queued-work : work queued.match_events < 6
unfolding work
queued-work = ground arith

drain-idle_example :
    (m : ℕ) × (db' : Tables) × (drain (λ n. n) down lost_at_five at 6 3 queued ≡ some (m, db'))
    × ((count (is_due (at m)) db'.match_events ≡ 0) ⊎ ((e : Error) × (lost_at_five m ≡ some e)))
drain-idle_example = drain-idle (λ n. n) down lost_at_five at 6 3 queued (refl, tt) queued-work

abbrev match : ℕ → MatchRow
match n = record {
  played_at = at n;
  room_snapshot_id = none;
  p1_npid = "ann";
  p2_npid = none;
  winner = p1;
  p1_event_id = some n;
  p2_event_id = none;
}

abbrev three : Tables
three = record no_rows { matches = (1, match 1) ∷ (2, match 2) ∷ (3, match 3) ∷ [] }

abbrev no_like : String → String → Bool
no_like pattern name = false

three-before : length (all_before no_like (some "ann") none three none) ≡ 3
unfolding all_before is_listed select sort_by
three-before = refl

list_page-whole_example :
    (pages_from no_like (some "ann") none 2 three 4 none
      ≡ map (out three) (all_before no_like (some "ann") none three none))
    × IsNewestFirst (all_before no_like (some "ann") none three none)
list_page-whole_example =
    list_page-whole no_like (some "ann") none 2 three 4 (refl, (refl, (refl, tt))) (omega arith)
      (omega (arith, three-before))
