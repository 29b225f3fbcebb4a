-- ===== src/Dns/Queries.antt =====
-- src/DnsSeeker.cpp: the queries that are under way.
use cdn_uring.Prelude.{
  ℕ, ◌+◌, ◌-◌, ◌<◌, ◌≡◌, sym, Bool, true, none, some, [], ◌∷◌, ◌++◌, ltb, arith, if◌then◌else◌,
  Bool-cases, inl, inr,
}
use mathlib.Core.Path.{fun_ext}
use cdn_uring.Prelude.Text.{Text, text_eq}
use cdn_uring.Prelude.Result.{Result, ok, fault, missing_key}
use cdn_uring.Dns.State.{Query, QueryList}
use cdn_uring.World.Monad.{update}
use cdn_uring.World.Laws.{update-update, update_same, update_self}
use cdn_uring.Dns.Entries.{update_text}

-- `DnsSeeker::addQuery`.
unfoldable pub add_query : ℕ → Query → QueryList → QueryList
add_query id query list = record {
  queries = update list.queries id (some query);
  by_host = update_text list.by_host query.host (some id);
  by_next_due_time =
      update list.by_next_due_time query.next_retry
        (list.by_next_due_time query.next_retry ++ (id ∷ []));
  in_progress = if ltb list.in_progress 2000000000 then list.in_progress + 1 else list.in_progress;
}

-- The due time goes with all queries that are due then.
unfoldable pub remove_found : ℕ → Query → Bool → QueryList → QueryList
remove_found id query with_next_due_time list = record {
  queries = update list.queries id none;
  by_host = update_text list.by_host query.host none;
  by_next_due_time =
      if with_next_due_time
      then update list.by_next_due_time query.next_retry []
      else list.by_next_due_time;
  in_progress = list.in_progress - 1;
}

-- `DnsSeeker::removeQuery`.
unfoldable pub remove_query : ℕ → Bool → QueryList → Result QueryList
remove_query id with_next_due_time list = elim (list.queries id) [
  | none ↦ fault missing_key
  | some query ↦ ok (remove_found id query with_next_due_time list)
]

-- The number of the next query after `increment`.
unfoldable pub next_increment : ℕ → ℕ
next_increment increment = if ltb 65534 (increment + 1) then 1 else increment + 1

update_text-undo {ℓ} :
    {A : Type ℓ} (f : Text → A) (key : Text) (v u : A)
    → ((q : Text) → text_eq key q ≡ true → f q ≡ u)
    → update_text (update_text f key v) key u ≡ f
update_text-undo f key v u same = fun_ext λ q. elim (Bool-cases (text_eq key q)) [
  | inl at ↦ rw at (sym (same q at))
  | inr other ↦ rw other
]

-- A query that is removed right after it was added leaves the list as it was, if its number and its host
-- were not in the list, no other query is due at the same time, and the count is below its limit.
pub remove_query-add_query :
    (id : ℕ) (query : Query) (list : QueryList)
    → list.queries id ≡ none
    → ((q : Text) → text_eq query.host q ≡ true → list.by_host q ≡ none)
    → list.by_next_due_time query.next_retry ≡ []
    → list.in_progress < 2000000000
    → remove_query id true (add_query id query list) ≡ ok list
unfolding remove_query add_query remove_found
remove_query-add_query id query list unused unasked undue below =
    let counts : ltb list.in_progress 2000000000 ≡ true = ground (arith, below) in
    let back : list.in_progress + 1 - 1 ≡ list.in_progress = omega arith in
    rw (update_self list.queries id (some query), remove_query)
      (rw
        (
          update-update list.queries id (some query) none,
          update_same list.queries id unused,
          update_text-undo list.by_host query.host (some id) none unasked,
          update-update list.by_next_due_time query.next_retry
              (list.by_next_due_time query.next_retry ++ (id ∷ [])) [],
          update_same list.by_next_due_time query.next_retry undue,
          counts,
        )
        (rw back))
