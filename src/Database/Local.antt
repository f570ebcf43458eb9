-- ===== src/Database/Local.antt =====
-- A service that never fails, as a function table: the assumptions on the service can be met.
use awesome_lambda_auth.Database.{
  failed, Item, Key, Write, attributes, apply_effect, Contents, fetched, written, refused,
  no_reason, condition_failed, committed, cancelled, Outcome, TxOutcome, Reason, Holds, Applied,
  Elsewhere, Distinct, WriteLaw, TxLaw, Explains, Dynamo,
}
use awesome_lambda_auth.Common.{
  ◌≡◌, refl, sym, ◌≢◌, inl, inr, Bool, true, false, ◌&&◌, Option, List, [], ◌∷◌, All, arith, str_eq,
  eq_iff, Bool-cases, if◌then◌else◌,
}

abbrev pub key_eq : Key → Key → Bool
key_eq j k = str_eq j.0 k.0 && str_eq j.1 k.1

abbrev pub store_at : Contents → Key → Option Item → Contents
store_at t k v = λ j. if key_eq j k then v else t j

abbrev write_local : Contents → Write → Contents × Outcome
write_local t w =
    if w.cond (attributes (t w.at))
    then (store_at t w.at (apply_effect w.effect (t w.at)), written (t w.at))
    else (t, refused (t w.at))

abbrev all_hold : Contents → List Write → Bool
all_hold t [] = true
all_hold t (w ∷ ws) = w.cond (attributes (t w.at)) && all_hold t ws

abbrev reasons : Contents → List Write → List Reason
reasons t [] = []
reasons t (w ∷ ws) =
    (if w.cond (attributes (t w.at)) then no_reason else condition_failed (t w.at)) ∷ reasons t ws

abbrev apply_all : Contents → List Write → Contents
apply_all t [] = t
apply_all t (w ∷ ws) = store_at (apply_all t ws) w.at (apply_effect w.effect (t w.at))

abbrev transact_local : Contents → List Write → Contents × TxOutcome
transact_local t ws =
    if all_hold t ws then (apply_all t ws, committed) else (t, cancelled (reasons t ws))

key_eq_self : (k : Key) → key_eq k k ≡ true
key_eq_self k = ground (arith, eq_iff k.0 k.0, eq_iff k.1 k.1)

key_eq_ne : (j k : Key) → j ≢ k → key_eq j k ≡ false
key_eq_ne j k h = ground (arith, eq_iff j.0 k.0, eq_iff j.1 k.1)

pub store_at_self : (t : Contents) (k : Key) (v : Option Item) → store_at t k v k ≡ v
store_at_self t k v = rw (key_eq_self k)

pub store_at_ne : (t : Contents) (j k : Key) (v : Option Item) → j ≢ k → store_at t k v j ≡ t j
store_at_ne t j k v h = rw (key_eq_ne j k h)

pub write_local_law :
    (t : Contents) (w : Write) → WriteLaw t (write_local t w).0 w (write_local t w).1
write_local_law t w = elim (Bool-cases (w.cond (attributes (t w.at)))) [
  | inl held ↦
      rw held (held, refl, ((store_at_self t w.at _, tt), λ k h. store_at_ne t k w.at _ h.0))
  | inr lost ↦ rw lost (lost, inr refl, λ k. refl)
]

apply_all_frame :
    (t : Contents) (ws : List Write) (k : Key) → Elsewhere k ws → apply_all t ws k ≡ t k
apply_all_frame t [] k h = refl
apply_all_frame t (w ∷ ws) k (h, hs) = rw (key_eq_ne k w.at h) (apply_all_frame t ws k hs)

store_at-All :
    (t after : Contents) (k : Key) (v : Option Item) (ws : List Write)
    → Elsewhere k ws
    → All (Applied t after) ws
    → All (Applied t (store_at after k v)) ws
store_at-All t after k v [] h a = tt
store_at-All t after k v (w ∷ ws) (h, hs) (a, as_) =
    (rw (key_eq_ne w.at k (λ e. h (sym e))) a, store_at-All t after k v ws hs as_)

apply_all-Applied :
    (t : Contents) (ws : List Write) → Distinct ws → All (Applied t (apply_all t ws)) ws
apply_all-Applied t [] d = tt
apply_all-Applied t (w ∷ ws) (h, d) = (
  store_at_self (apply_all t ws) w.at (apply_effect w.effect (t w.at)),
  store_at-All t (apply_all t ws) w.at _ ws h (apply_all-Applied t ws d),
)

all_hold-All : (t : Contents) (ws : List Write) → all_hold t ws ≡ true → All (Holds t) ws
all_hold-All t [] h = tt
all_hold-All t (w ∷ ws) h = elim (Bool-cases (w.cond (attributes (t w.at)))) [
  | inl held ↦ (held, all_hold-All t ws (rw held at h))
  | inr lost ↦ absurd (cc (rw lost at h))
]

reasons-Explains : (t : Contents) (ws : List Write) → Explains t ws (reasons t ws)
reasons-Explains t [] = tt
reasons-Explains t (w ∷ ws) = elim (Bool-cases (w.cond (attributes (t w.at)))) [
  | inl held ↦ rw held (reasons-Explains t ws)
  | inr lost ↦ rw lost (lost, inr refl, reasons-Explains t ws)
]

pub transact_local_law :
    (t : Contents) (ws : List Write)
    → Distinct ws
    → TxLaw t (transact_local t ws).0 ws (transact_local t ws).1
transact_local_law t ws d = elim (Bool-cases (all_hold t ws)) [
  | inl held ↦
      rw held (all_hold-All t ws held, (apply_all-Applied t ws d, λ k h. apply_all_frame t ws k h))
  | inr lost ↦ rw lost (λ k. refl, reasons-Explains t ws)
]

abbrev pub local : Dynamo
local = record {
  Table = Contents;
  contents = λ t. t;
  get_item = λ t k. fetched (t k);
  write_item = write_local;
  transact_write_items = transact_local;
  get_law = λ t k. inl refl;
  write_law = write_local_law;
  transact_law = transact_local_law;
}

pub write_local-ne_failed : (t : Contents) (w : Write) → (local.write_item t w).1 ≢ failed
write_local-ne_failed t w e = elim (Bool-cases (w.cond (attributes (t w.at)))) [
  | inl held ↦ cc (rw held at e)
  | inr lost ↦ cc (rw lost at e)
]
