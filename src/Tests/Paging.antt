-- ===== src/Tests/Paging.antt =====
-- A run of a paged query over an index one of whose entries is stale.
use awesome_lambda_auth.Paging.{
  page, last_page, Replies, page_size, beyond, fill, in_order, resolve_index_entries, read_pages,
  page_window, by_key, paged_index_query,
}
use awesome_lambda_auth.Paging.Window.{
  Cuts, window_of, paged_index_query_lem, listed, AnswersInFull,
}
use awesome_lambda_auth.Common.{
  arith, some, ◌≤◌, ℕ, refl, pos, ◌≡◌, All, String, Option, List, [], ◌∷◌,
}
use awesome_lambda_auth.Errors.{◌>>=◌, ok, Result}
use awesome_lambda_auth.Database.{Item, Key, text}
use awesome_lambda_auth.Database.Expression.{get_s, item_of}

abbrev entry : String → Item
entry pk = item_of (("PK", text pk) ∷ ("SK", text "PROFILE") ∷ [])

abbrev key_of : Item → Key
key_of e = (get_s e "PK", get_s e "SK")

-- Everything is there but `b`; the service answers all that it has.
abbrev everything : List Item
everything = entry "a" ∷ entry "c" ∷ entry "d" ∷ entry "e" ∷ []

abbrev stored_at : Key → Option Item
stored_at k = by_key k everything

abbrev answer_all : List Key → Result (List Item)
answer_all keys = ok everything

in_full : (keys : List Key) → All (λ k. by_key k everything ≡ stored_at k) keys
in_full [] = tt
in_full (k ∷ ks) = (refl, in_full ks)

answers_all : AnswersInFull answer_all key_of stored_at
answers_all keys = (everything, refl, in_full keys)

abbrev index : List Item
index = entry "a" ∷ entry "b" ∷ entry "c" ∷ entry "d" ∷ entry "e" ∷ []

-- A service that answers an entry at a time, and an empty page in the end.
one_by_one : List Item → ℕ → Replies
one_by_one [] size = last_page []
one_by_one (e ∷ es) size = page (e ∷ []) (one_by_one es)

one_by_one-Cuts :
    (entries : List Item) (size : ℕ)
    → 1 ≤ size
    → Cuts answer_all key_of stored_at entries (one_by_one entries size)
unfolding one_by_one
one_by_one-Cuts [] size some_ = refl
one_by_one-Cuts (e ∷ es) size some_ = (es, refl, one_by_one-Cuts es)

paged_index_query_lem_example :
    paged_index_query answer_all key_of 100 (pos 2) (pos 1) (one_by_one index) ≡ (
      window_of 100 (pos 2) (pos 1) >>= λ window.
      ok (listed answer_all key_of stored_at index window))
paged_index_query_lem_example =
    paged_index_query_lem answer_all key_of stored_at 100 (pos 2) (pos 1) index (one_by_one index)
      answers_all (omega arith) (one_by_one-Cuts index)

-- The stale entry counts in the offset, and not in the limit.
two_items :
    paged_index_query answer_all key_of 100 (pos 2) (pos 1) (one_by_one index)
    ≡ ok (entry "c" ∷ entry "d" ∷ [])
unfolding paged_index_query page_window beyond page_size read_pages resolve_index_entries in_order
    by_key fill one_by_one
two_items = refl

-- The sum of a limit and an offset at the top of an int wraps, and passes the cap.
wrapped_window :
    page_window 100 (pos 2) (pos 9_223_372_036_854_775_807)
    ≡ ok (some (2, 9_223_372_036_854_775_807))
unfolding page_window beyond
wrapped_window = refl
