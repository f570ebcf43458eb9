-- ===== src/Linking/Binding.antt =====
-- What saving a linked account does (`Save`, internal/store/dynamodb/linked_accounts.go).
use mathlib.Core.Path.{subst}
use package.text.Mathlib.TextLemmas.{append_cancel_left}
use awesome_lambda_auth.Common.{
  Option, zero, ◌+◌, suc, ℕ, ◌⊎◌, String, true, none, some, ◌≡◌, ◌≢◌, refl, sym, ap, inl, inr,
  arith, eq_iff, Option-cases, Bool-cases, str-cases,
}
use awesome_lambda_auth.Linking.{
  check_provider_account_id, rebind_retries, check_link, found_link, find_by_provider, save_from,
  save_link, Attempt, LinkedAccount, attempt_of, bind_observed, bind_writes, bound, broke,
  link_from_item, link_id_item, link_id_key, link_id_pk, link_item, link_key, names_link, rebound,
  try_bind,
}
use awesome_lambda_auth.Errors.{◌or_else◌, StoreError, ok}
use awesome_lambda_auth.Keys.{check_id}
use awesome_lambda_auth.Database.{
  fetched, Contents, Dynamo, Key, TxLaw, TxOutcome, Unchanged, attributes, cancelled, committed,
  tx_failed, Distinct,
}
use awesome_lambda_auth.Transaction.{tx_failed_at, transact_write}
use awesome_lambda_auth.Database.Expression.{get_s, is_some}
use awesome_lambda_auth.Env.{Env}
use awesome_lambda_auth.Items.{check_version, put_s-get, put_t-get}
use awesome_lambda_auth.Transaction.Retry.{transact_write_law}

link_item-round_trip : (l : LinkedAccount) → link_from_item (link_item l) ≡ ok l
unfolding link_from_item link_item check_version
link_item-round_trip l =
    rw (put_s-get l.email, put_s-get l.name, put_s-get l.picture, put_t-get l.created_at) refl

oauth-ne_link_id : ◌≢◌ {A = String} "OAUTH" "LINKID"
oauth-ne_link_id = ground (arith, eq_iff "OAUTH" "LINKID")

link_key-ne_pointer : (p q id : String) → link_key p q ≢ link_id_key id
link_key-ne_pointer p q id e = oauth-ne_link_id (ap (λ (k : Key). k.1) e)

link_id_key-ne : (a b : String) → a ≢ b → link_id_key a ≢ link_id_key b
unfolding link_id_pk
link_id_key-ne a b ne e = ne (append_cancel_left "LINKID#" a b (ap (λ (k : Key). k.0) e))

bind_writes-Distinct : (l : LinkedAccount) (observed : String) → Distinct (bind_writes l observed)
unfolding bind_writes
bind_writes-Distinct l observed = elim (str-cases observed "") [
  | inl (_, test) ↦ rw test ((link_key-ne_pointer l.provider l.provider_id l.id, tt), (tt, tt))
  | inr (_, test) ↦ elim (str-cases observed l.id) [
    | inl (_, test') ↦
        rw (test, test') ((link_key-ne_pointer l.provider l.provider_id l.id, tt), (tt, tt))
    | inr (ne, test') ↦
        rw (test, test')
          (
            (
              link_key-ne_pointer l.provider l.provider_id l.id,
              (link_key-ne_pointer l.provider l.provider_id observed, tt),
            ),
            ((link_id_key-ne l.id observed (λ e. ne (sym e)), tt), (tt, tt)),
          )
  ]
]

-- The id that held the binding.
abbrev pub holder : LinkedAccount → Contents → String
holder l before = get_s (attributes (before (link_key l.provider l.provider_id))) "linkId"

-- The binding and its pointer are there, the pointer of another id that held it is gone, the link's
-- id named nothing else, and no other item changed.
pub record Binds (l : LinkedAccount) (before after : Contents) : Type 0 where
  pub canonical : after (link_key l.provider l.provider_id) ≡ some (link_item l)
  pub pointer : after (link_id_key l.id) ≡ some (link_id_item l)
  pub named : names_link l (attributes (before (link_id_key l.id))) ≡ true
  pub stale :
      holder l before ≢ "" → holder l before ≢ l.id → after (link_id_key (holder l before)) ≡ none
  pub others :
      (k : Key)
      → k ≢ link_key l.provider l.provider_id
      → k ≢ link_id_key l.id
      → k ≢ link_id_key (holder l before)
      → after k ≡ before k

committed-Binds :
    (l : LinkedAccount) (before after : Contents)
    → TxLaw before after (bind_writes l (holder l before)) committed
    → Binds l before after
unfolding bind_writes
committed-Binds l before after law = elim (str-cases (holder l before) "") [
  | inl (e, test) ↦
      let ((_, (named, _)), ((a, (b, _)), frame)) = rw (test, bind_writes) at law in
      record {
        canonical = a;
        pointer = b;
        named = named;
        stale = λ ne ne'. absurd (ne e);
        others = λ k p q r. frame k (p, (q, tt));
      }
  | inr (_, test) ↦ elim (str-cases (holder l before) l.id) [
    | inl (e, test') ↦
        let ((_, (named, _)), ((a, (b, _)), frame)) = rw (test, test', bind_writes) at law in
        record {
          canonical = a;
          pointer = b;
          named = named;
          stale = λ ne ne'. absurd (ne' e);
          others = λ k p q r. frame k (p, (q, tt));
        }
    | inr (_, test') ↦
        let ((_, (named, _)), ((a, (b, (c, _))), frame)) = rw (test, test', bind_writes) at law in
        record {
          canonical = a;
          pointer = b;
          named = named;
          stale = λ ne ne'. c;
          others = λ k p q r. frame k (p, (q, (r, tt)));
        }
  ]
]

or_else_rest : (a b : Option StoreError) → (a or_else b) ≡ none → b ≡ none
or_else_rest none b h = h
or_else_rest (some e) b h = absurd (cc h)

Attempt-cases : (a : Attempt) → (a ≡ bound) ⊎ ((a ≡ rebound) ⊎ ((e : StoreError) × (a ≡ broke e)))
Attempt-cases bound = inl refl
Attempt-cases rebound = inr (inl refl)
Attempt-cases (broke e) = inr (inr (e, refl))

module _ (db : Dynamo) where
  open db use {Table, contents, get_item, get_law}

  -- What an attempt that did not break has done.
  abbrev AttemptLaw : LinkedAccount → Contents → Contents → Attempt → Type 0
  AttemptLaw l before after bound = Binds l before after
  AttemptLaw l before after rebound = Unchanged before after
  AttemptLaw l before after (broke e) = Unit

  attempt_law :
      (l : LinkedAccount) (before after : Contents) (out : TxOutcome)
      → TxLaw before after (bind_writes l (holder l before)) out
      → AttemptLaw l before after (attempt_of out)
  unfolding attempt_of
  attempt_law l before after committed law = committed-Binds l before after law
  attempt_law l before after tx_failed law = tt
  attempt_law l before after (cancelled rs) (same, _) =
      elim (Bool-cases (is_some (tx_failed_at rs 1))) [
        | inl taken ↦ rw (taken, attempt_of) tt
        | inr free ↦ elim (Bool-cases (is_some (tx_failed_at rs 0))) [
          | inl lost ↦ rw (free, lost, attempt_of) same
          | inr kept ↦ rw (free, kept, attempt_of) tt
        ]
      ]

  bind_observed_law :
      (env : Env) (t : Table) (l : LinkedAccount)
      → let i = attributes (contents t (link_key l.provider l.provider_id)) in
        let (t', came) = bind_observed db env t l i in AttemptLaw l (contents t) (contents t') came
  unfolding bind_observed
  bind_observed_law env t l =
      let i = attributes (contents t (link_key l.provider l.provider_id)) in
      let ws = bind_writes l (get_s i "linkId") in
      elim (Option-cases (check_version i)) [
        | inr (e, bad) ↦ rw (bad, bind_observed) tt
        | inl good ↦
            rw (good, bind_observed)
              (attempt_law l (contents t) (contents (transact_write db env.waits t ws).0)
                (transact_write db env.waits t ws).1
                (transact_write_law db env.waits ws (bind_writes-Distinct l (get_s i "linkId")) t))
      ]

  try_bind_law :
      (env : Env) (t : Table) (l : LinkedAccount)
      → let (t', came) = try_bind db env t l (get_item t (link_key l.provider l.provider_id)) in
        AttemptLaw l (contents t) (contents t') came
  unfolding try_bind
  try_bind_law env t l = elim (get_law t (link_key l.provider l.provider_id)) [
    | inr lost ↦ rw (lost, try_bind) tt
    | inl found ↦ rw (found, try_bind) (bind_observed_law env t l)
  ]

  save_from-Binds :
      (env : Env) (left attempt : ℕ) (t : Table) (l : LinkedAccount)
      → (save_from db env left attempt t l).1 ≡ none
      → Binds l (contents t) (contents (save_from db env left attempt t l).0)
  unfolding save_from
  save_from-Binds env zero attempt t l h =
      let tried = try_bind db env t l (get_item t (link_key l.provider l.provider_id)) in
      elim (Attempt-cases tried.1) [
        | inl won ↦
            rw (won, save_from)
              (subst (AttemptLaw l (contents t) (contents tried.0)) won (try_bind_law env t l))
        | inr (inl lost) ↦ absurd (cc (rw (lost, save_from) at h))
        | inr (inr (e, broken)) ↦ absurd (cc (rw (broken, save_from) at h))
      ]
  save_from-Binds env (suc left) attempt t l h =
      let tried = try_bind db env t l (get_item t (link_key l.provider l.provider_id)) in
      elim (Attempt-cases tried.1) [
        | inl won ↦
            rw (won, save_from)
              (subst (AttemptLaw l (contents t) (contents tried.0)) won (try_bind_law env t l))
        | inr (inr (e, broken)) ↦ absurd (cc (rw (broken, save_from) at h))
        | inr (inl lost) ↦ elim (Bool-cases (env.waits attempt)) [
          | inr over ↦ absurd (cc (rw (lost, over, save_from) at h))
          | inl on ↦
              let same =
                subst (AttemptLaw l (contents t) (contents tried.0)) lost (try_bind_law env t l) in
              rw (lost, on, save_from)
                (subst
                  (λ before.
                    Binds l before (contents (save_from db env left (attempt + 1) tried.0 l).0))
                  (λ i k. same k i)
                  (save_from-Binds env left (attempt + 1) tried.0 l
                    (rw (lost, on, save_from) at h)))
        ]
      ]

  find_bound :
      (t' : Table) (l : LinkedAccount)
      → check_link l ≡ none
      → contents t' (link_key l.provider l.provider_id) ≡ some (link_item l)
      → get_item t' (link_key l.provider l.provider_id)
        ≡ fetched (contents t' (link_key l.provider l.provider_id))
      → find_by_provider db t' l.provider l.provider_id ≡ ok l
  unfolding find_by_provider found_link check_link
  find_bound t' l good there read =
      let valid : check_id l.provider or_else check_provider_account_id l.provider_id ≡ none =
        or_else_rest (check_id l.user_id) _ (or_else_rest (check_id l.id) _ good) in
      rw (valid, read, there, find_by_provider, found_link) (link_item-round_trip l)

  -- A linked account that was saved is bound, with its pointer; the pointer of another id that held
  -- the binding is gone, the link's id named nothing but this account, and no other item changed. The
  -- account is then found by its provider, where the read answers, field by field.
  pub save_link-Binds :
      (env : Env) (t : Table) (l : LinkedAccount)
      → (save_link db env t l).1 ≡ none
      → let t' = (save_link db env t l).0 in
        Binds l (contents t) (contents t')
        × (((k : Key) → get_item t' k ≡ fetched (contents t' k))
            → find_by_provider db t' l.provider l.provider_id ≡ ok l)
  unfolding save_link check_link
  save_link-Binds env t l h = elim (Option-cases (check_link l)) [
    | inr (e, bad) ↦ absurd (cc (rw (bad, save_link) at h))
    | inl good ↦
        let saved = save_from db env rebind_retries 0 t l in
        let binds = save_from-Binds env rebind_retries 0 t l (rw (good, save_link) at h) in
        rw (good, save_link)
          (
            binds,
            λ reads.
                find_bound saved.0 l good binds.canonical
                  (reads (link_key l.provider l.provider_id)),
          )
  ]
