-- ===== src/Community/Threads.antt =====
-- What `_hide_deleted` and `_nest_replies` of community/service.py show of a post's comments.
use tag2now_be.Prelude.{
  ℕ, ◌+◌, ◌≤◌, Bool, ◌≡◌, ◌∙◌, refl, true, false, not, ◌&&◌, ◌||◌, Option, none, some, List, [],
  ◌∷◌, ◌++◌, map, arith, to_ℕ, ◌==◌, filter_by, any_of, count_of, count_of-append, All, All-mono,
  Bool-cases, inl, inr, if◌then◌else◌, str_eq, eq_iff,
}
use tag2now_be.Community.Rules.{
  Comment, Thread, is_live, is_parent, is_head, tombstone, hide_deleted, has_parent_in,
  nest_replies,
}

-- A deleted comment that is still shown has lost its words, and is marked.
abbrev pub IsBlanked : Comment → Type 0
IsBlanked c = (is_live c || (c.deleted && str_eq c.row.body "")) ≡ true

IsBlanked-shown : (c : Comment) → IsBlanked (if is_live c then c else tombstone c)
unfolding tombstone
IsBlanked-shown c = elim (Bool-cases (is_live c)) [
  | inl live ↦ rw live (ground arith)
  | inr dead ↦ rw dead (ground (arith, eq_iff "" ""))
]

hide_from-IsBlanked :
    (all cs : List Comment)
    → All IsBlanked (
        map
          (λ c. if is_live c then c else tombstone c)
          (filter_by (λ c. is_live c || is_head all c) cs))
unfolding filter_by tombstone
hide_from-IsBlanked all [] = tt
hide_from-IsBlanked all (c ∷ cs) = elim (Bool-cases (is_live c || is_head all c)) [
  | inl shown ↦ rw shown (IsBlanked-shown c, hide_from-IsBlanked all cs)
  | inr hidden ↦ rw hidden (hide_from-IsBlanked all cs)
]

pub hide_deleted-IsBlanked : (cs : List Comment) → All IsBlanked (hide_deleted cs)
unfolding hide_deleted
hide_deleted-IsBlanked cs = hide_from-IsBlanked cs cs

hide_from-count :
    (p : Comment → Bool) (all cs : List Comment)
    → count_of
        (λ c. is_live c && p c)
        (map
          (λ c. if is_live c then c else tombstone c)
          (filter_by (λ c. is_live c || is_head all c) cs))
      ≡ count_of (λ c. is_live c && p c) cs
unfolding filter_by tombstone count_of
hide_from-count p all [] = refl
hide_from-count p all (c ∷ cs) = ground (arith, hide_from-count p all cs)

-- Every live comment stays as it is, and no other is live.
pub hide_deleted-count :
    (p : Comment → Bool) (cs : List Comment)
    → count_of (λ c. is_live c && p c) (hide_deleted cs) ≡ count_of (λ c. is_live c && p c) cs
unfolding hide_deleted
hide_deleted-count p cs = hide_from-count p cs cs

-- All comments of the threads, each head before its replies.
abbrev pub flat : List Thread → List Comment
flat [] = []
flat (t ∷ ts) = (t.comment ∷ t.replies) ++ flat ts

-- No id twice, and every parent that is there stands at the top.
pub record IsThreaded (cs : List Comment) : Type 0 where
  pub once : (q : ℕ) → count_of (λ c. c.id == q) cs ≤ 1
  pub shallow :
      All (λ r. All (λ t. is_parent r.row.parent_id t.id ≡ true → t.row.parent_id ≡ none) cs) cs

abbrev parents : Comment → List Comment → ℕ
parents r cs = count_of (λ t. is_parent r.row.parent_id t.id) cs

-- The number of pairs of a comment that passes and one of the heads that is its parent.
abbrev pairs : (Comment → Bool) → List Comment → List Comment → ℕ
pairs p heads [] = 0
pairs p heads (r ∷ rs) = (if p r then parents r heads else 0) + pairs p heads rs

pairs-none : (p : Comment → Bool) (rs : List Comment) → pairs p [] rs ≡ 0
unfolding count_of
pairs-none p [] = refl
pairs-none p (r ∷ rs) = ground (arith, pairs-none p rs)

pairs-cons :
    (p : Comment → Bool) (h : Comment) (heads rs : List Comment)
    → pairs p (h ∷ heads) rs
      ≡ count_of p (filter_by (λ r. is_parent r.row.parent_id h.id) rs) + pairs p heads rs
unfolding count_of filter_by
pairs-cons p h heads [] = refl
pairs-cons p h heads (r ∷ rs) = ground (arith, pairs-cons p h heads rs)

abbrev thread_of : List Comment → Comment → Thread
thread_of cs c = record {
  comment = c;
  replies = filter_by (λ r. is_parent r.row.parent_id c.id) cs;
}

flat-count :
    (p : Comment → Bool) (cs heads : List Comment)
    → count_of p (flat (map (thread_of cs) heads)) ≡ count_of p heads + pairs p heads cs
unfolding count_of
flat-count p cs [] = ground (arith, pairs-none p cs)
flat-count p cs (h ∷ heads) = omega (
  arith,
  flat-count p cs heads,
  pairs-cons p h heads cs,
  count_of-append p (h ∷ filter_by (λ r. is_parent r.row.parent_id h.id) cs)
      (flat (map (thread_of cs) heads)),
)

any-count :
    (p : Comment → Bool) (cs : List Comment)
    → count_of p cs ≤ 1
    → count_of p cs ≡ to_ℕ (any_of p cs)
unfolding count_of any_of
any-count p [] h = refl
any-count p (c ∷ cs) h = ground (arith, any-count p cs)

none_counts : (cs : List Comment) → count_of (λ t. is_parent none t.id) cs ≡ 0
unfolding count_of
none_counts [] = refl
none_counts (c ∷ cs) = omega (arith, none_counts cs)

parent_counts :
    (q : ℕ) (cs : List Comment)
    → count_of (λ t. is_parent (some q) t.id) cs ≤ count_of (λ c. c.id == q) cs
unfolding count_of
parent_counts q [] = omega arith
parent_counts q (c ∷ cs) = ground (arith, parent_counts q cs)

parents_of :
    (parent : Option ℕ) (cs : List Comment)
    → ((q : ℕ) → count_of (λ c. c.id == q) cs ≤ 1)
    → count_of (λ t. is_parent parent t.id) cs ≤ 1
parents_of none cs h = omega (arith, none_counts cs)
parents_of (some q) cs h = omega (arith, h q, parent_counts q cs)

parents_once :
    (r : Comment) (cs : List Comment)
    → ((q : ℕ) → count_of (λ c. c.id == q) cs ≤ 1)
    → parents r cs ≤ 1
parents_once r cs h = parents_of r.row.parent_id cs h

-- A comment that names no parent has none.
no_parent :
    (all : List Comment) (c : Comment)
    → c.row.parent_id ≡ none
    → any_of (λ p. is_parent c.row.parent_id p.id) all ≡ false
unfolding any_of
no_parent [] c e = refl
no_parent (d ∷ all) c e = ground (arith, no_parent all c e)

heads_hold :
    (all cs : List Comment) (r : Comment)
    → All (λ t. is_parent r.row.parent_id t.id ≡ true → t.row.parent_id ≡ none) cs
    → parents r (filter_by (λ c. not (has_parent_in all c)) cs) ≡ parents r cs
unfolding count_of filter_by has_parent_in
heads_hold all [] r h = refl
heads_hold all (c ∷ cs) r h = ground (arith, heads_hold all cs r h.1, h.0, no_parent all c)

pairs_of_heads :
    (p : Comment → Bool) (all rs : List Comment)
    → All
        (λ r.
          parents r (filter_by (λ c. not (has_parent_in all c)) all) ≡ to_ℕ (has_parent_in all r))
        rs
    → count_of p (filter_by (λ c. not (has_parent_in all c)) rs)
        + pairs p (filter_by (λ c. not (has_parent_in all c)) all) rs
      ≡ count_of p rs
unfolding count_of filter_by
pairs_of_heads p all [] h = refl
pairs_of_heads p all (r ∷ rs) h = ground (arith, pairs_of_heads p all rs h.1, h.0)

-- In comments with no id twice, whose parents stand at the top: every comment is shown exactly once,
-- as the head of a thread or as a reply.
pub nest_replies-whole :
    (p : Comment → Bool) (cs : List Comment)
    → IsThreaded cs
    → count_of p (flat (nest_replies cs)) ≡ count_of p cs
unfolding nest_replies
nest_replies-whole p cs h =
    let heads = filter_by (λ c. not (has_parent_in cs c)) cs in
    flat-count p cs heads
    ∙ pairs_of_heads p cs cs (
        All-mono cs
          (λ r top. omega (
            arith,
            heads_hold cs cs r top,
            any-count (λ t. is_parent r.row.parent_id t.id) cs (parents_once r cs h.once),
          ))
          h.shallow)

-- What hiding keeps of each comment holds of what is shown.
hide_from-All :
    (P : Comment → Type 0) (all cs : List Comment)
    → ((c : Comment) → P c → P (tombstone c))
    → All P cs
    → All P (
        map
          (λ c. if is_live c then c else tombstone c)
          (filter_by (λ c. is_live c || is_head all c) cs))
unfolding filter_by
hide_from-All P all [] f h = tt
hide_from-All P all (c ∷ cs) f h = elim (Bool-cases (is_live c || is_head all c)) [
  | inl kept ↦ elim (Bool-cases (is_live c)) [
    | inl live ↦ rw (kept, live) (h.0, hide_from-All P all cs f h.1)
    | inr dead ↦ rw (kept, dead) (f c h.0, hide_from-All P all cs f h.1)
  ]
  | inr hidden ↦ rw hidden (hide_from-All P all cs f h.1)
]

pub hide_deleted-All :
    (P : Comment → Type 0) (cs : List Comment)
    → ((c : Comment) → P c → P (tombstone c))
    → All P cs
    → All P (hide_deleted cs)
unfolding hide_deleted
hide_deleted-All P cs f h = hide_from-All P cs cs f h

hide_from-once :
    (q : ℕ) (all cs : List Comment)
    → count_of
        (λ c. c.id == q)
        (map
          (λ c. if is_live c then c else tombstone c)
          (filter_by (λ c. is_live c || is_head all c) cs))
      ≤ count_of (λ c. c.id == q) cs
unfolding filter_by tombstone count_of
hide_from-once q all [] = omega arith
hide_from-once q all (c ∷ cs) = ground (arith, hide_from-once q all cs)

pub hide_deleted-once :
    (q : ℕ) (cs : List Comment)
    → count_of (λ c. c.id == q) (hide_deleted cs) ≤ count_of (λ c. c.id == q) cs
unfolding hide_deleted
hide_deleted-once q cs = hide_from-once q cs cs
