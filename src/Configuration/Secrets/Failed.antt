-- ===== src/Configuration/Secrets/Failed.antt =====
-- A read that failed is reported: where resolving the secrets reports nothing, no knob is marked as
-- failed.
use awesome_lambda_auth.Common.{
  arith, String, false, List, [], ◌∷◌, ◌≡◌, refl, inl, inr, some, str-cases, str_eq, lookup, insert,
  lookup-insert, Bool-cases, Option, Option-cases,
}
use awesome_lambda_auth.Configuration.Blocks.{Secret, ResolvedSecret}
use awesome_lambda_auth.Configuration.Surfaces.{Config}
use awesome_lambda_auth.Configuration.Checks.{configured, secret_failed}
use awesome_lambda_auth.Configuration.Checks.Silence.{Silent, Silent-append}
use awesome_lambda_auth.Configuration.Secrets.{
  SecretSlot, Resolvers, Lookup, found, not_found, broken, record_resolution, resolve_slot,
  resolve_slots, resolve_secrets, secret_slots, apply_secret_ref_env, resolve_one, is_malformed,
}

-- No entry of the table is marked as failed.
abbrev NoneFailed : List (String × ResolvedSecret) → Type 0
NoneFailed secrets =
    (path : String) (r : ResolvedSecret) → lookup path secrets ≡ some r → r.failed ≡ false

none_at_first : NoneFailed []
unfolding lookup
none_at_first path r e = cc

insert-NoneFailed :
    (path : String) (new : ResolvedSecret) (secrets : List (String × ResolvedSecret))
    → new.failed ≡ false
    → NoneFailed secrets
    → NoneFailed (insert path new secrets)
insert-NoneFailed path new secrets h none_failed other r e = elim (str-cases path other) [
  | inl (same, test) ↦ ground (arith, lookup-insert path other new secrets, test)
  | inr (apart, test) ↦
      none_failed other r (ground (arith, lookup-insert path other new secrets, test))
]

module _ (r : Resolvers) (getenv : String → Option String) where
  record_resolution-NoneFailed :
      (c : Config) (s : Secret) (slot : SecretSlot) (answer : Lookup) (source : String)
      → NoneFailed c.secrets
      → Silent (record_resolution c s slot (record { reply = answer; source = source })).1
      → NoneFailed
          (record_resolution c s slot (record { reply = answer; source = source })).0.secrets
  unfolding record_resolution
  record_resolution-NoneFailed c s slot (found v) source ok silent =
      insert-NoneFailed slot.path (record { value = v; source = source; failed = false }) c.secrets
        refl ok
  record_resolution-NoneFailed c s slot not_found source ok silent = ok
  record_resolution-NoneFailed c s slot broken source ok silent = elim (Bool-cases (configured s)) [
    | inl asked ↦ absurd (rw asked at silent)
    | inr unasked ↦ rw unasked ok
  ]

  resolve_slot-NoneFailed :
      (c : Config) (slot : SecretSlot)
      → NoneFailed c.secrets
      → Silent (resolve_slot r getenv c slot).1
      → NoneFailed (resolve_slot r getenv c slot).0.secrets
  unfolding resolve_slot
  resolve_slot-NoneFailed c slot ok silent =
      let s = apply_secret_ref_env (slot.get c) slot getenv in
      elim (Bool-cases (str_eq s.literal "")) [
        | inr plain ↦ absurd (rw plain at silent)
        | inl reference ↦ elim (Bool-cases (is_malformed s.err)) [
          | inl malformed ↦ absurd (rw (reference, malformed) at silent)
          | inr whole ↦
              let answer = resolve_one s slot r in
              rw (reference, whole)
                (record_resolution-NoneFailed c s slot answer.reply answer.source ok
                  (rw (reference, whole) at silent))
        ]
      ]

  resolve_slots-NoneFailed :
      (c : Config) (slots : List SecretSlot)
      → NoneFailed c.secrets
      → Silent (resolve_slots r getenv c slots).1
      → NoneFailed (resolve_slots r getenv c slots).0.secrets
  unfolding resolve_slots
  resolve_slots-NoneFailed c [] ok silent = ok
  resolve_slots-NoneFailed c (slot ∷ rest) ok silent =
      let (here, later) =
        (Silent-append (resolve_slot r getenv c slot).1
            (resolve_slots r getenv (resolve_slot r getenv c slot).0 rest).1).0
          silent in
      resolve_slots-NoneFailed (resolve_slot r getenv c slot).0 rest
        (resolve_slot-NoneFailed c slot ok here) later

  pub resolve_secrets-failed :
      (c : Config) (path : String)
      → Silent (resolve_secrets r getenv c).1
      → secret_failed (resolve_secrets r getenv c).0 path ≡ false
  unfolding resolve_secrets secret_failed
  resolve_secrets-failed c path silent =
      let c' = record c { secrets = [] } in
      let held = resolve_slots-NoneFailed c' (secret_slots c') none_at_first silent in
      let answer = (resolve_slots r getenv c' (secret_slots c')).0 in
      elim (Option-cases (lookup path answer.secrets)) [
        | inl absent ↦ rw absent refl
        | inr (v, here) ↦ rw here (held path v here)
      ]
