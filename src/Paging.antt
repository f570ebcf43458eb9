-- ===== src/Paging.antt =====
-- Reading an index page by page: internal/store/dynamodb/paging.go. For `queryAll` the answers of the
-- service to the successive queries are a list, `none` for a call that failed; the last page is the
-- one without a `LastEvaluatedKey`. `pagedIndexQuery` says how many entries it asks for, and the
-- answers are `Replies`. The batch calls are a parameter. A Go int has 64 bits.
pub mod Window
pub mod Batch
pub mod Swept
use mathlib.Core.List.{◌++◌ as append}
use awesome_lambda_auth.Common.{
  ℕ, zero, suc, ◌+◌, ◌-◌, ◌%◌, ◌==◌, String, Bool, true, false, ◌&&◌, Option, none, some, List, [],
  ◌∷◌, str_eq, ltb, if◌then◌else◌, length, ℤ, pos, negsuc,
}
use awesome_lambda_auth.Database.{Item, Key}
use awesome_lambda_auth.Database.Expression.{get_s}
use awesome_lambda_auth.Errors.{
  Result, err, ok, page_window_too_large, result_too_large, service, ◌>>=◌,
}

abbrev pub nonnegative : ℤ → ℕ
nonnegative (pos n) = n
nonnegative (negsuc n) = 0

-- Two to the powers 31, 32, 63 and 64.
abbrev pub int32_top : ℕ
int32_top = 2_147_483_648

abbrev pub int32_modulus : ℕ
int32_modulus = 4_294_967_296

abbrev pub int_top : ℕ
int_top = 9_223_372_036_854_775_808

abbrev pub int_modulus : ℕ
int_modulus = 18_446_744_073_709_551_616

-- Whether a sum, which wraps, is above the cap.
unfoldable pub beyond : ℕ → ℕ → Bool
beyond most sum = let wrapped = sum % int_modulus in ltb wrapped int_top && ltb most wrapped

-- The limit and the offset that are read, and `none` where nothing is.
unfoldable pub page_window : ℕ → ℤ → ℤ → Result (Option (ℕ × ℕ))
unfolding beyond
page_window most (negsuc n) offset = ok none
page_window most (pos zero) offset = ok none
page_window most (pos (suc n)) offset =
    if beyond most (suc n + nonnegative offset)
    then err page_window_too_large
    else ok (some (suc n, nonnegative offset))

module _ {ℓ} {A : Type ℓ} where
  -- The loop of `queryAll`, `out` being what was read so far.
  unfoldable pub query_all : ℕ → List A → List (Option (List A)) → Result (List A)
  query_all most out [] = ok out
  query_all most out (none ∷ rest) = err service
  query_all most out (some items ∷ rest) =
      let later = query_all most (append out items) rest in
      if ltb most (length (append out items)) then err result_too_large else later

  abbrev pub drop : ℕ → List A → List A
  drop zero xs = xs
  drop (suc n) [] = []
  drop (suc n) (x ∷ xs) = drop n xs

  abbrev pub take : ℕ → List A → List A
  take zero xs = []
  take (suc n) [] = []
  take (suc n) (x ∷ xs) = x ∷ take n xs

-- `byKey[keyString(pk, sk)]`: of the items with one key the last stays.
unfoldable pub by_key : Key → List Item → Option Item
by_key k [] = none
by_key k (i ∷ rest) = elim (by_key k rest) [
  | some later ↦ some later
  | none ↦ if str_eq (get_s i "PK") k.0 && str_eq (get_s i "SK") k.1 then some i else none
]

abbrev pub keep : Option Item → List Item → List Item
keep none rest = rest
keep (some i) rest = i ∷ rest

-- The items of those keys that have one, in the order of the keys.
unfoldable pub in_order : List Key → List Item → List Item
unfolding by_key
in_order [] items = []
in_order (k ∷ ks) items = keep (by_key k items) (in_order ks items)

abbrev pub canonical_keys : (Item → Key) → List Item → List Key
canonical_keys canonical [] = []
canonical_keys canonical (e ∷ es) = canonical e ∷ canonical_keys canonical es

-- What is read before the limit is reached, or at it.
abbrev pub min : ℕ → ℕ → ℕ
min a b = if ltb b a then b else a

pub data Filling {ℓ} (A : Type ℓ) : Type ℓ where
  filled room : List A → Filling A

unfoldable pub fill {ℓ} : {A : Type ℓ} → ℕ → List A → List A → Filling A
fill limit out [] = room out
fill limit out (it ∷ items) =
    let out' = append out (it ∷ []) in
    let later = fill limit out' items in if length out' == limit then filled out' else later

-- The answers to the successive queries, which depend on how many entries are asked for.
pub data Replies : Type 0 where
  lost : Replies
  last_page : List Item → Replies
  page : List Item → (ℕ → Replies) → Replies

abbrev positive_size : ℕ → Option ℕ
positive_size zero = none
positive_size (suc n) = some (suc n)

-- `int32(min(want, maxBatchGetItems))`; the service refuses a limit that is not positive.
unfoldable pub page_size : ℕ → Option ℕ
page_size want =
    let wrapped = want % int_modulus in
    let low = wrapped % int32_modulus in
    if ltb wrapped int_top
    then positive_size (min wrapped 100)
    else if ltb low int32_top
    then positive_size low
    else none

-- A query for what is outstanding.
abbrev pub ask : ℕ → (ℕ → Result (List Item)) → Result (List Item)
ask want read = elim (page_size want) [ none ↦ err service | some size ↦ read size ]

module _ (batch_get : List Key → Result (List Item)) (canonical : Item → Key) where
  unfoldable pub resolve_index_entries : List Item → Result (List Item)
  unfolding in_order
  resolve_index_entries entries = do
    items ← batch_get (canonical_keys canonical entries)
    ok (in_order (canonical_keys canonical entries) items)

  -- What is left of a page goes to the output, which is answered when it is full.
  abbrev pub after_page :
      ℕ → List Item → List Item → (List Item → Result (List Item)) → Result (List Item)
  after_page limit out [] next = next out
  after_page limit out (e ∷ es) next = resolve_index_entries (e ∷ es) >>= λ items.
      elim (fill limit out items) [ filled all ↦ ok all | room so_far ↦ next so_far ]

  -- The loop of `pagedIndexQuery`; once the offset is skipped, nothing is dropped any more.
  unfoldable pub read_pages : ℕ → ℕ → ℕ → List Item → Replies → Result (List Item)
  unfolding resolve_index_entries fill page_size
  read_pages limit offset skipped out lost = err service
  read_pages limit offset skipped out (last_page entries) =
      after_page limit out (drop (min (offset - skipped) (length entries)) entries)
        (λ so_far. ok so_far)
  read_pages limit offset skipped out (page entries next) =
      let dropped = min (offset - skipped) (length entries) in
      after_page limit out (drop dropped entries) (λ so_far.
        ask ((limit - length so_far) + (offset - (skipped + dropped)))
          (λ size. read_pages limit offset (skipped + dropped) so_far (next size)))

  unfoldable pub paged_index_query : ℕ → ℤ → ℤ → (ℕ → Replies) → Result (List Item)
  unfolding page_window read_pages page_size
  paged_index_query most limit offset first = do
    window ← page_window most limit offset
    (elim window [
      | none ↦ ok []
      | some (wanted, skipped) ↦
          ask (wanted + skipped) (λ size. read_pages wanted skipped 0 [] (first size))
    ])
