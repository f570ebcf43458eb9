-- ===== src/Paging/Window.antt =====
-- What the loops of internal/store/dynamodb/paging.go read, against the whole index.
use mathlib.Core.Path.{subst}
use mathlib.Core.List.{append-nil, append_assoc}
use awesome_lambda_auth.Paging.{
  Replies, ask, beyond, int_modulus, int_top, last_page, lost, nonnegative, page, page_size,
  page_window, paged_index_query, Filling, after_page, by_key, canonical_keys, drop, fill, filled,
  in_order, keep, min, read_pages, resolve_index_entries, room, take,
}
use awesome_lambda_auth.Common.{
  ◌%◌, true, if◌then◌else◌, pos, negsuc, ℤ, ℕ, zero, suc, ◌+◌, ◌-◌, ◌==◌, ◌<◌, ◌≤◌, Option, none,
  some, List, [], ◌∷◌, ◌++◌, ◌≡◌, refl, sym, ap, ◌∙◌, inl, inr, arith, Bool-cases, length,
  length-append, All, ltb,
}
use awesome_lambda_auth.Database.{Item, Key}
use awesome_lambda_auth.Errors.{Result, err, ok, page_window_too_large, ◌>>=◌}

min-suc : (n m : ℕ) → min (suc n) (suc m) ≡ suc (min n m)
min-suc n m = ground arith

min-zero : (m : ℕ) → min 0 m ≡ 0
min-zero m = ground arith

sub_zero : (m : ℕ) → m ≡ m - 0
sub_zero m = omega arith

suc_sub : (n m : ℕ) → n - m ≡ suc n - suc m
suc_sub n m = omega arith

zero_sub : (m : ℕ) → 0 - m ≡ 0
zero_sub m = omega arith

module _ {A : Type 0} where
  drop-nil : (n : ℕ) → drop {A = A} n [] ≡ []
  drop-nil zero = refl
  drop-nil (suc n) = refl

  take-short : (n : ℕ) (xs : List A) → length xs ≤ n → take n xs ≡ xs
  take-short zero [] h = refl
  take-short zero (x ∷ xs) h = absurd (omega (arith, h))
  take-short (suc n) [] h = refl
  take-short (suc n) (x ∷ xs) h = ap (λ ys. x ∷ ys) (take-short n xs (omega (arith, h)))

  take-exact : (xs ys : List A) → take (length xs) (xs ++ ys) ≡ xs
  take-exact [] ys = refl
  take-exact (x ∷ xs) ys = ap (λ zs. x ∷ zs) (take-exact xs ys)

  drop-min : (n : ℕ) (xs : List A) → drop (min n (length xs)) xs ≡ drop n xs
  drop-min zero [] = refl
  drop-min zero (x ∷ xs) = ap (λ n. drop n (x ∷ xs)) (min-zero (suc (length xs)))
  drop-min (suc n) [] = drop-nil (min (suc n) 0)
  drop-min (suc n) (x ∷ xs) = rw (min-suc n (length xs)) (drop-min n xs)

  -- Dropping from a page and from the pages behind it.
  drop-append : (n : ℕ) (xs ys : List A) → drop n (xs ++ ys) ≡ drop n xs ++ drop (n - length xs) ys
  drop-append zero [] ys = refl
  drop-append zero (x ∷ xs) ys = ap (λ n. x ∷ (xs ++ drop n ys)) (sym (zero_sub (suc (length xs))))
  drop-append (suc n) [] ys = ap (λ m. drop m ys) (sub_zero (suc n))
  drop-append (suc n) (x ∷ xs) ys =
      drop-append n xs ys ∙ ap (λ m. drop n xs ++ drop m ys) (suc_sub n (length xs))

  abbrev FillLaw : ℕ → List A → List A → Filling A → Type 0
  FillLaw limit out items (filled all) = (more : List A) → all ≡ take limit (out ++ (items ++ more))
  FillLaw limit out items (room so_far) = (so_far ≡ out ++ items) × (length so_far < limit)

  shift :
      (limit : ℕ) (out : List A) (it : A) (items : List A) (f : Filling A)
      → FillLaw limit (out ++ (it ∷ [])) items f
      → FillLaw limit out (it ∷ items) f
  shift limit out it items (filled all) law =
      λ more. law more ∙ ap (take limit) (append_assoc out (it ∷ []) (items ++ more))
  shift limit out it items (room so_far) (same, short) =
      (same ∙ append_assoc out (it ∷ []) items, short)

  fill_law :
      (limit : ℕ) (out items : List A)
      → length out < limit
      → FillLaw limit out items (fill limit out items)
  unfolding fill
  fill_law limit out [] h = (sym (append-nil out), h)
  fill_law limit out (it ∷ items) h =
      let out' = out ++ (it ∷ []) in
      let longer = length-append out (it ∷ []) in
      elim (Bool-cases (length out' == limit)) [
        | inl full ↦
            rw (full, fill)
              (λ more.
                subst (λ n. out' ≡ take n (out ++ (it ∷ (items ++ more)))) (ground (arith, full))
                  (sym (take-exact out' (items ++ more))
                    ∙ ap (take (length out')) (append_assoc out (it ∷ []) (items ++ more))))
        | inr left ↦
            rw (left, fill)
              (shift limit out it items (fill limit out' items)
                (fill_law limit out' items ground arith))
      ]

-- A number that fits in an int is asked for, up to the most that a batch reads.
mod-small : (n : ℕ) → n < int_top → n % int_modulus ≡ n
mod-small n small = omega arith

page_size-some :
    (want : ℕ) → 1 ≤ want → want < int_top → (size : ℕ) × (page_size want ≡ some size) × (1 ≤ size)
unfolding page_size
page_size-some zero one small = absurd (omega arith)
page_size-some (suc w) one small =
    let same = mod-small (suc w) small in
    let below : ltb (suc w) int_top ≡ true = ground arith in
    elim (Bool-cases (ltb 100 (suc w))) [
      | inl wide ↦ (100, rw (same, below, wide, page_size) refl, omega arith)
      | inr fits ↦ (suc w, rw (same, below, fits, page_size) refl, omega arith)
    ]

ask_lem :
    (want size : ℕ) (read : ℕ → Result (List Item))
    → page_size want ≡ some size
    → ask want read ≡ read size
ask_lem want size read asked = rw (asked, ask) refl

beyond-ltb : (most sum : ℕ) → sum < int_top → beyond most sum ≡ ltb most sum
unfolding beyond
beyond-ltb most sum small =
    let below : ltb sum int_top ≡ true = ground arith in
    rw (mod-small sum small, below, beyond) refl

-- The window of a listing, as `pageWindow` documents it.
abbrev pub window_of : ℕ → ℤ → ℤ → Result (Option (ℕ × ℕ))
window_of most (negsuc n) offset = ok none
window_of most (pos zero) offset = ok none
window_of most (pos (suc n)) offset =
    if ltb most (suc n + nonnegative offset)
    then err page_window_too_large
    else ok (some (suc n, nonnegative offset))

-- The items of those entries that are still there.
abbrev pub present : (Key → Option Item) → (Item → Key) → List Item → List Item
present found canonical [] = []
present found canonical (e ∷ es) = keep (found (canonical e)) (present found canonical es)

keep-append : (o : Option Item) (xs ys : List Item) → keep o (xs ++ ys) ≡ keep o xs ++ ys
keep-append none xs ys = refl
keep-append (some i) xs ys = refl

module _ (batch_get : List Key → Result (List Item)) (canonical : Item → Key)
    (found : Key → Option Item) where
  present-append :
      (xs ys : List Item)
      → present found canonical (xs ++ ys)
        ≡ present found canonical xs ++ present found canonical ys
  present-append [] ys = refl
  present-append (e ∷ xs) ys =
      ap (keep (found (canonical e))) (present-append xs ys)
      ∙ keep-append (found (canonical e)) (present found canonical xs) (present found canonical ys)

  in_order_lem :
      (es items : List Item)
      → All (λ k. by_key k items ≡ found k) (canonical_keys canonical es)
      → in_order (canonical_keys canonical es) items ≡ present found canonical es
  unfolding in_order
  in_order_lem [] items h = refl
  in_order_lem (e ∷ es) items (here, later) = λ i. keep (here i) (in_order_lem es items later i)

  -- `BatchGetItem` in full: it answers, and its items are those of the keys that are there.
  abbrev pub AnswersInFull : Type 0
  AnswersInFull =
      (keys : List Key)
      → (items : List Item) × (batch_get keys ≡ ok items) × All (λ k. by_key k items ≡ found k) keys

  resolve_lem :
      AnswersInFull
      → (es : List Item)
      → resolve_index_entries batch_get canonical es ≡ ok (present found canonical es)
  unfolding resolve_index_entries
  resolve_lem answers es =
      let (items, got, right) = answers (canonical_keys canonical es) in
      rw (got, resolve_index_entries) (ap ok (in_order_lem es items right))

  Reads : ℕ → List Item → List Item → Result (List Item) → Type 0
  Reads limit out entries r = r ≡ ok (take limit (out ++ present found canonical entries))

  after_fill :
      (limit : ℕ) (out kept later : List Item) (next : List Item → Result (List Item))
      (f : Filling Item)
      → FillLaw limit out (present found canonical kept) f
      → ((so_far : List Item) → length so_far < limit → Reads limit so_far later (next so_far))
      → Reads limit out (kept ++ later) (elim f [ filled all ↦ ok all | room so_far ↦ next so_far ])
  unfolding Reads
  after_fill limit out kept later next (filled all) law more = ap ok (
      law (present found canonical later)
      ∙ ap (λ xs. take limit (out ++ xs)) (sym (present-append kept later)))
  after_fill limit out kept later next (room so_far) (same, short) more =
      more so_far short
      ∙ ap (λ xs. ok (take limit xs))
          (ap (λ xs. xs ++ present found canonical later) same
            ∙ append_assoc out (present found canonical kept) (present found canonical later)
            ∙ ap (λ xs. out ++ xs) (sym (present-append kept later)))

  after_page_lem :
      (limit : ℕ) (out kept later : List Item) (next : List Item → Result (List Item))
      → AnswersInFull
      → length out < limit
      → ((so_far : List Item) → length so_far < limit → Reads limit so_far later (next so_far))
      → Reads limit out (kept ++ later) (after_page batch_get canonical limit out kept next)
  after_page_lem limit out [] later next answers short more = more out short
  after_page_lem limit out (e ∷ es) later next answers short more =
      rw (resolve_lem answers (e ∷ es)) (
        after_fill limit out (e ∷ es) later next (fill limit out (present found canonical (e ∷ es)))
          (fill_law limit out (present found canonical (e ∷ es)) short) more)

  -- A page that was read moves the offset.
  skipped_by :
      (offset skipped n : ℕ)
      → (offset - skipped) - n ≡ offset - (skipped + min (offset - skipped) n)
  skipped_by offset skipped n = ground arith

  -- The answers cut these entries into pages, whatever is asked for.
  abbrev pub Cuts : List Item → Replies → Type 0
  Cuts entries lost = ⊥
  Cuts entries (last_page items) = entries ≡ items
  Cuts entries (page items next) =
      (rest : List Item) × (entries ≡ items ++ rest)
      × ((size : ℕ) → 1 ≤ size → Cuts rest (next size))

  read_pages_lem :
      (limit offset skipped : ℕ) (out entries : List Item) (r : Replies)
      → AnswersInFull
      → limit + offset < int_top
      → length out < limit
      → Cuts entries r
      → Reads limit out
          (drop (offset - skipped) entries)
          (read_pages batch_get canonical limit offset skipped out r)
  unfolding read_pages Reads
  read_pages_lem limit offset skipped out entries lost answers small short cuts = absurd cuts
  read_pages_lem limit offset skipped out entries (last_page items) answers small short same =
      let d = offset - skipped in
      subst
        (λ es.
          Reads limit out es
            (read_pages batch_get canonical limit offset skipped out (last_page items)))
        (append-nil (drop (min d (length items)) items) ∙ drop-min d items ∙ ap (drop d) (sym same))
        (after_page_lem limit out (drop (min d (length items)) items) [] (λ so_far. ok so_far)
          answers short
          (λ so_far short'. ap ok (
            sym (take-short limit so_far (omega (arith, short')))
            ∙ ap (take limit) (sym (append-nil so_far)))))
  read_pages_lem limit offset skipped out entries (page items next) answers small short
        (rest, same, cuts) =
      let d = offset - skipped in
      let m = min d (length items) in
      let later = drop (offset - (skipped + m)) rest in
      subst
        (λ es.
          Reads limit out es
            (read_pages batch_get canonical limit offset skipped out (page items next)))
        (ap (λ xs. xs ++ later) (drop-min d items)
          ∙ ap (λ n. drop d items ++ drop n rest) (sym (skipped_by offset skipped (length items)))
          ∙ sym (drop-append d items rest)
          ∙ ap (drop d) (sym same))
        (after_page_lem limit out (drop m items) later _ answers short (λ so_far short'.
          let (size, asked, enough) =
            page_size-some ((limit - length so_far) + (offset - (skipped + m))) (omega arith)
              (omega arith) in
          subst (Reads limit so_far later)
            (sym (ask_lem ((limit - length so_far) + (offset - (skipped + m))) size _ asked))
            (read_pages_lem limit offset (skipped + m) so_far rest (next size) answers small short'
              (cuts size enough))))

  -- What a listing means: the window of the index, less the entries whose items are gone.
  abbrev pub listed : List Item → Option (ℕ × ℕ) → List Item
  listed entries none = []
  listed entries (some (wanted, skipped)) =
      take wanted (present found canonical (drop skipped entries))

  -- Where limit and offset add up within an int, every query is answered and the batch reads
  -- answer in full, a paged query reads the same however the service cuts the index into pages:
  -- from the entries behind the offset, the items that are still there, up to the limit, or the
  -- refusal of a window that is larger than the cap.
  pub paged_index_query_lem :
      (most : ℕ) (limit offset : ℤ) (entries : List Item) (first : ℕ → Replies)
      → AnswersInFull
      → nonnegative limit + nonnegative offset < int_top
      → ((size : ℕ) → 1 ≤ size → Cuts entries (first size))
      → paged_index_query batch_get canonical most limit offset first
        ≡ (window_of most limit offset >>= λ window. ok (listed entries window))
  unfolding paged_index_query page_window Reads
  paged_index_query_lem most (negsuc n) offset entries first answers small cuts = refl
  paged_index_query_lem most (pos zero) offset entries first answers small cuts = refl
  paged_index_query_lem most (pos (suc n)) offset entries first answers small cuts =
      let o = nonnegative offset in
      let same = beyond-ltb most (suc n + o) small in
      elim (Bool-cases (ltb most (suc n + o))) [
        | inl wide ↦ rw (same, wide, paged_index_query, page_window) refl
        | inr fits ↦
            let (size, asked, enough) = page_size-some (suc n + o) (omega arith) small in
            rw (same, fits, paged_index_query, page_window)
              (ask_lem (suc n + o) size _ asked
                ∙ read_pages_lem (suc n) o 0 [] entries (first size) answers small (omega arith)
                    (cuts size enough)
                ∙ ap (λ k. ok (take (suc n) (present found canonical (drop k entries))))
                    (sym (sub_zero o)))
      ]
