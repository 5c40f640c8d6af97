-- ===== src/Reservation/Requests.antt =====
-- reservation/models.py: the field rules that a request body passes before the service sees it.
-- A text's length is its number of characters.
use Prim.Native.String.{count as text_length}
use tag2now_be.Prelude.{
  ℕ, String, Bool, true, false, not, ◌&&◌, ◌||◌, Option, none, some, List, [], ◌∷◌, ◌≡◌, ◌≤◌, arith,
  leb, str_eq, length, get_or,
}
use tag2now_be.Reservation.Service.{CreateRequest, UpdateRequest}

contains : String → List String → Bool
contains r [] = false
contains r (x ∷ xs) = str_eq x r || contains r xs

-- `_reject_duplicate_ranks` lets the list pass.
unfoldable pub has_no_duplicates : List String → Bool
unfolding contains
has_no_duplicates [] = true
has_no_duplicates (x ∷ xs) = not (contains x xs) && has_no_duplicates xs

-- `if ranks is not None`, and so for the other fields of an edit.
abbrev passes {ℓ} : {A : Type ℓ} → (A → Bool) → Option A → Bool
passes p none = true
passes p (some a) = p a

abbrev ranks_pass : List String → Bool
ranks_pass ranks = leb (length ranks) 20 && has_no_duplicates ranks

abbrev capacity_passes : ℕ → Bool
capacity_passes capacity = leb 1 capacity && leb capacity 3

abbrev memo_passes : String → Bool
memo_passes memo = leb (text_length memo) 140

unfoldable pub accepts_create : CreateRequest → Bool
accepts_create r = ranks_pass r.ranks && capacity_passes r.capacity && memo_passes r.memo

unfoldable pub accepts_update : UpdateRequest → Bool
accepts_update r =
    passes ranks_pass r.ranks && passes capacity_passes r.capacity && passes memo_passes r.memo

pub accepts_create-capacity : (r : CreateRequest) → accepts_create r ≡ true → 1 ≤ r.capacity
unfolding accepts_create
accepts_create-capacity r h = ground arith

pub accepts_update-capacity :
    (r : UpdateRequest) (current : ℕ)
    → accepts_update r ≡ true
    → 1 ≤ current
    → 1 ≤ get_or r.capacity current
unfolding accepts_update
accepts_update-capacity r current h pos = ground arith
