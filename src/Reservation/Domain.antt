-- ===== src/Reservation/Domain.antt =====
-- reservation/domain.py: the statuses and match types, and the rules that need no database.
use tag2now_be.Prelude.{
  ℕ, ◌+◌, ◌-◌, ◌*◌, String, Bool, true, false, not, ◌&&◌, ◌||◌, Option, List, [], ◌∷◌, Error,
  Result, ok, err, forbidden, validation, raise_if, ◌then_check◌, ltb, leb, ◌==◌, same_text,
  if◌then◌else◌,
}
use tag2now_be.Time.{Instant, minute, hour, day, at_time_of_day}

pub data MatchType : Type 0 where
  rank player any : MatchType

pub data ReservationStatus : Type 0 where
  opened matched cancelled ended : ReservationStatus

-- `ReservationStateError` is a `ValidationError`, and `ReservationAccessError` a `ForbiddenError`.
abbrev pub state_error : String → Error
state_error message = validation message

abbrev pub access_error : String → Error
access_error message = forbidden message

abbrev pub lead_time : ℕ
lead_time = 10 * minute

abbrev pub day_end_hour : ℕ
day_end_hour = 6

abbrev pub listing_grace : ℕ
listing_grace = 1 * hour

abbrev pub is_live : ReservationStatus → Bool
is_live opened = true
is_live matched = true
is_live cancelled = false
is_live ended = false

abbrev pub is_open : ReservationStatus → Bool
is_open opened = true
is_open _ = false

unfoldable pub window_end : ℕ → Instant → Instant
window_end seoul now =
    let kst_now = now + seoul in
    let end = at_time_of_day kst_now (day_end_hour * hour) in
    (if leb end kst_now then end + day else end) - seoul

-- The instant that the host's time of day denotes, before the two checks.
unfoldable pub next_at : ℕ → ℕ → Instant → Instant
next_at seoul start_time now =
    let start_at = at_time_of_day (now + seoul) start_time - seoul in
    if ltb start_at now then start_at + day else start_at

unfoldable pub start_at_from : ℕ → ℕ → Instant → Result Instant
start_at_from seoul start_time now =
    let start_at = next_at seoul start_time now in
    if ltb start_at (now + lead_time)
    then err (state_error "지금부터 10분 이후 시각으로 예약할 수 있습니다.")
    else if leb (window_end seoul now) start_at
    then err (state_error "지금부터 다음 날 오전 6시 사이의 시각만 예약할 수 있습니다.")
    else ok start_at

unfoldable pub ensure_conditions_valid : MatchType → List String → ℕ → Result (Unit {0})
ensure_conditions_valid rank [] capacity = err (state_error "랭크매치는 보유 계급을 하나 이상 선택해야 합니다.")
ensure_conditions_valid rank (_ ∷ _) capacity =
    raise_if (not (capacity == 1)) (state_error "랭크매치는 1명만 모집할 수 있습니다.")
ensure_conditions_valid player [] capacity = ok tt
ensure_conditions_valid player (_ ∷ _) capacity = err (state_error "플레이어 매치는 계급을 선택하지 않습니다.")
ensure_conditions_valid any ranks capacity = ok tt

unfoldable pub ends_at : Instant → Instant
ends_at start_at = start_at + listing_grace

unfoldable pub status_for : ℕ → ℕ → ReservationStatus
status_for participant_count capacity = if leb capacity participant_count then matched else opened

unfoldable pub ensure_joinable_by : Option String → String → Bool → Result (Unit {0})
ensure_joinable_by host_subject subject already_joined =
    raise_if (same_text host_subject subject) (state_error "내가 만든 예약에는 참가할 수 없습니다.")
    then_check raise_if already_joined (state_error "이미 참가한 예약입니다.")

unfoldable pub ensure_joinable : ReservationStatus → Instant → ℕ → ℕ → Instant → Result (Unit {0})
ensure_joinable status start_at participant_count capacity now =
    raise_if (not (is_open status) || leb start_at now) (state_error "지금은 참가할 수 없는 예약입니다.")
    then_check raise_if (leb capacity participant_count) (state_error "모집이 완료된 예약입니다.")

unfoldable pub ensure_edited_by_host : Option String → String → Result (Unit {0})
ensure_edited_by_host host_subject subject =
    raise_if (not (same_text host_subject subject)) (access_error "예약한 사람만 수정할 수 있습니다.")

unfoldable pub ensure_editable : ReservationStatus → Instant → ℕ → Instant → Result (Unit {0})
ensure_editable status start_at participant_count now =
    raise_if (not (is_live status)) (state_error "이미 취소되었거나 종료된 예약입니다.")
    then_check raise_if (leb start_at now) (state_error "이미 시작된 예약은 변경할 수 없습니다.")
    then_check raise_if (ltb 0 participant_count)
        (state_error "참가자가 있는 예약은 수정할 수 없습니다. 삭제 후 다시 등록해 주세요.")

unfoldable pub ensure_commentable : ReservationStatus → Result (Unit {0})
ensure_commentable cancelled = err (state_error "취소된 예약에는 댓글을 쓸 수 없습니다.")
ensure_commentable _ = ok tt

unfoldable pub ensure_comment_deletable_by : Option String → String → Bool → Result (Unit {0})
ensure_comment_deletable_by author_subject subject admin =
    raise_if (not (same_text author_subject subject) && not admin)
      (access_error "작성한 사람만 삭제할 수 있습니다.")

unfoldable pub ensure_participation_cancellable :
    ReservationStatus → Instant → Instant → Bool → Result (Unit {0})
ensure_participation_cancellable status start_at now participating =
    raise_if (not (is_live status)) (state_error "이미 취소되었거나 종료된 예약입니다.")
    then_check raise_if (leb start_at now) (state_error "이미 시작된 예약은 변경할 수 없습니다.")
    then_check raise_if (not participating) (access_error "참가 중인 예약이 아닙니다.")

unfoldable pub ensure_cancellable :
    Option String → String → ReservationStatus → Instant → Instant → Result (Unit {0})
ensure_cancellable host_subject subject status start_at now =
    raise_if (not (same_text host_subject subject)) (access_error "예약한 사람만 취소할 수 있습니다.")
    then_check raise_if (not (is_live status) || leb start_at now)
        (access_error "이미 시작했거나 끝난 예약은 취소할 수 없습니다.")
