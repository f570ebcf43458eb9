-- ===== src/Database.antt =====
-- The table behind internal/store/dynamodb: items as attribute maps, condition and update
-- expressions, and the service itself, which is a parameter with its documented behaviour.
-- Items: internal/store/dynamodb/item.go. The service's client: the `API` interface of store.go.
pub mod Expression
pub mod Local
use awesome_lambda_auth.Common.{
  inl, ap, inr, str-cases, ℕ, ◌≤◌, String, ◌≡◌, ◌≢◌, ◌⊎◌, Bool, true, false, Option, none, some,
  List, [], ◌∷◌, All,
}

-- An attribute value. A timestamp that `formatTime` wrote is kept as its instant (nanoseconds):
-- the layout has a fixed width, so texts of this kind compare as their instants do.
pub data Value : Type 0 where
  text : String → Value
  num : ℕ → Value
  stamp : ℕ → Value
  flag : Bool → Value
  -- a map of texts
  object : List (String × String) → Value

-- The attributes of an item; one that is missing is `none`.
abbrev pub Item : Type 0
Item = String → Option Value

-- The partition key and the sort key.
abbrev pub Key : Type 0
Key = String × String

-- What a write does to the item at its key.
pub data Effect : Type 0 where
  put : Item → Effect
  update : (Item → Item) → Effect
  delete : Effect

pub record Write : Type 0 where
  pub at : Key
  pub cond : Item → Bool
  pub effect : Effect

abbrev pub no_attributes : Item
no_attributes name = none

-- Conditions and updates on a missing item see no attribute.
abbrev pub attributes : Option Item → Item
attributes none = no_attributes
attributes (some i) = i

abbrev pub apply_effect : Effect → Option Item → Option Item
apply_effect (put i) old = some i
apply_effect (update f) old = some (f (attributes old))
apply_effect delete old = none

pub data Fetched : Type 0 where
  fetched : Option Item → Fetched
  unreachable : Fetched

-- A single write's answer: `written` and `refused` carry the pre-image that the call asked for.
pub data Outcome : Type 0 where
  written : Option Item → Outcome
  refused : Option Item → Outcome
  failed : Outcome

-- One entry of a cancelled transaction's reasons.
pub data Reason : Type 0 where
  no_reason : Reason
  condition_failed : Option Item → Reason
  conflict : Reason

pub data TxOutcome : Type 0 where
  committed : TxOutcome
  cancelled : List Reason → TxOutcome
  tx_failed : TxOutcome

-- The committed items.
abbrev pub Contents : Type 0
Contents = Key → Option Item

abbrev pub Holds : Contents → Write → Type 0
Holds before w = w.cond (attributes (before w.at)) ≡ true

abbrev pub Applied : Contents → Contents → Write → Type 0
Applied before after w = after w.at ≡ apply_effect w.effect (before w.at)

abbrev pub Elsewhere : Key → List Write → Type 0
Elsewhere k ws = All (λ w. k ≢ w.at) ws

abbrev pub Unchanged : Contents → Contents → Type 0
Unchanged before after = (k : Key) → after k ≡ before k

-- All of the writes were applied, and nothing else changed.
abbrev pub AllApplied : Contents → Contents → List Write → Type 0
AllApplied before after ws =
    All (Applied before after) ws × ((k : Key) → Elsewhere k ws → after k ≡ before k)

-- The pre-image may be left out of a refusal.
abbrev pub IsPreImage : Option Item → Option Item → Type 0
IsPreImage pre old = (pre ≡ none) ⊎ (pre ≡ old)

abbrev pub WriteLaw : Contents → Contents → Write → Outcome → Type 0
WriteLaw before after w (written pre) =
    Holds before w × (pre ≡ before w.at) × AllApplied before after (w ∷ [])
WriteLaw before after w (refused pre) =
    (w.cond (attributes (before w.at)) ≡ false)
    × IsPreImage pre (before w.at)
    × Unchanged before after
WriteLaw before after w failed =
    Unchanged before after ⊎ (Holds before w × AllApplied before after (w ∷ []))

-- A reason that names a failed condition tells the truth about it.
abbrev pub Explains : Contents → List Write → List Reason → Type 0
Explains before [] rs = Unit
Explains before (w ∷ ws) [] = Unit
Explains before (w ∷ ws) (no_reason ∷ rs) = Explains before ws rs
Explains before (w ∷ ws) (conflict ∷ rs) = Explains before ws rs
Explains before (w ∷ ws) (condition_failed pre ∷ rs) =
    (w.cond (attributes (before w.at)) ≡ false)
    × IsPreImage pre (before w.at)
    × Explains before ws rs

abbrev pub TxLaw : Contents → Contents → List Write → TxOutcome → Type 0
TxLaw before after ws committed = All (Holds before) ws × AllApplied before after ws
TxLaw before after ws (cancelled rs) = Unchanged before after × Explains before ws rs
TxLaw before after ws tx_failed =
    Unchanged before after ⊎ (All (Holds before) ws × AllApplied before after ws)

-- Two keys are equal or not.
pub key-cases : (j k : Key) → (j ≡ k) ⊎ (j ≢ k)
key-cases j k = elim (str-cases j.0 k.0) [
  | inr (ne, _) ↦ inr (λ e. ne (ap (λ (l : Key). l.0) e))
  | inl (e, _) ↦ elim (str-cases j.1 k.1) [
    | inr (ne, _) ↦ inr (λ e'. ne (ap (λ (l : Key). l.1) e'))
    | inl (e', _) ↦ inl (λ i. (e i, e' i))
  ]
]

-- A transaction may name a key only once.
abbrev pub Distinct : List Write → Type 0
Distinct [] = Unit
Distinct (w ∷ ws) = Elsewhere w.at ws × Distinct ws

-- The service. A `Table` may hold more than its committed items, so a call may fail at any time.
pub record Dynamo : Type 1 where
  pub Table : Type 0
  pub contents : Table → Contents
  pub get_item : Table → Key → Fetched
  pub write_item : Table → Write → Table × Outcome
  pub transact_write_items : Table → List Write → Table × TxOutcome
  pub get_law :
      (t : Table) (k : Key) → (get_item t k ≡ fetched (contents t k)) ⊎ (get_item t k ≡ unreachable)
  pub write_law :
      (t : Table) (w : Write)
      → WriteLaw (contents t) (contents (write_item t w).0) w (write_item t w).1
  pub transact_law :
      (t : Table) (ws : List Write)
      → Distinct ws
      → TxLaw (contents t) (contents (transact_write_items t ws).0) ws (transact_write_items t ws).1
