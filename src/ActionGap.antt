-- ===== src/ActionGap.antt =====
-- src/server/proto_handler.rs: what a subscriber has missed, kept until it can be told.
pub mod Coverage
mod Examples
use arcrelay_protocol.Prelude.{
  ◌⊎◌, ℕ, suc, zero, ◌+◌, ◌-◌, ◌≤◌, ◌<◌, ◌≡◌, ◌≢◌, ◌∙◌, Bool, true, false, ◌||◌, ◌&&◌, Option, none,
  some, List, [], ◌∷◌, ◌++◌, arith, ltb, leb, ◌==◌, if◌then◌else◌, Bytes, bytes_eq, nat_eq, length,
  ◌%◌, ◌*◌, contains, add_element, saturating_add,
}

abbrev pub max_action_gap_resource_ids : ℕ
max_action_gap_resource_ids = 1024

abbrev pub max_action_gap_resource_bytes : ℕ
max_action_gap_resource_bytes = 262144

pub record ActionGap : Type 0 where
  pub first_missing_sequence : Option ℕ
  pub resource_ids : List Bytes
  pub resource_bytes : ℕ
  pub resync_all : Bool

abbrev pub no_gap : ActionGap
no_gap = record {
  first_missing_sequence = none;
  resource_ids = [];
  resource_bytes = 0;
  resync_all = false;
}

pub record EventGap : Type 0 where
  pub first_missing_sequence : ℕ
  pub resource_ids : List Bytes

-- `get_or_insert`
pub remember_sequence : ℕ → ActionGap → ActionGap
remember_sequence sequence gap = record gap {
  first_missing_sequence = elim gap.first_missing_sequence [
    | none ↦ some sequence
    | some first ↦ some first
  ];
}

pub forget_resources : ActionGap → ActionGap
forget_resources gap = record gap { resource_ids = []; resource_bytes = 0; resync_all = true }

pub has_no_room : Bytes → ActionGap → Bool
has_no_room resource_id gap =
    length resource_id == 0
    || leb max_action_gap_resource_ids (length gap.resource_ids)
    || ltb max_action_gap_resource_bytes (saturating_add gap.resource_bytes (length resource_id))

pub remember_resource : ℕ → Bytes → ActionGap → ActionGap
unfolding remember_sequence forget_resources has_no_room
remember_resource sequence resource_id gap =
    let gap' = remember_sequence sequence gap in
    if gap'.resync_all || contains resource_id gap'.resource_ids
    then gap'
    else if has_no_room resource_id gap'
    then forget_resources gap'
    else record gap' {
      resource_bytes = saturating_add gap'.resource_bytes (length resource_id);
      resource_ids = add_element resource_id gap'.resource_ids;
    }

pub remember_resources : ℕ → List Bytes → ActionGap → ActionGap
unfolding remember_resource
remember_resources sequence [] gap = gap
remember_resources sequence (resource_id ∷ rest) gap =
    remember_resources sequence rest (remember_resource sequence resource_id gap)

pub remember_gap : EventGap → ActionGap → ActionGap
unfolding remember_resources remember_sequence forget_resources
remember_gap missed gap =
    let gap' = remember_sequence missed.first_missing_sequence gap in
    elim missed.resource_ids [
      | [] ↦ forget_resources gap'
      | _ ∷ _ ↦ remember_resources missed.first_missing_sequence missed.resource_ids gap'
    ]

-- The order of byte strings.
pub leb_bytes : Bytes → Bytes → Bool
leb_bytes [] ys = true
leb_bytes (x ∷ xs) [] = false
leb_bytes (x ∷ xs) (y ∷ ys) = ltb x y || (x == y && leb_bytes xs ys)

pub insert_sorted : Bytes → List Bytes → List Bytes
unfolding leb_bytes
insert_sorted x [] = x ∷ []
insert_sorted x (y ∷ ys) =
    let rest = insert_sorted x ys in if leb_bytes x y then x ∷ y ∷ ys else y ∷ rest

-- `sort_unstable`
pub sort : List Bytes → List Bytes
unfolding insert_sorted
sort [] = []
sort (x ∷ xs) = insert_sorted x (sort xs)

pub take_resource_ids : ActionGap → ActionGap × List Bytes
unfolding sort
take_resource_ids gap = (
  record gap { resource_ids = []; resource_bytes = 0; resync_all = false },
  if gap.resync_all then [] else sort gap.resource_ids,
)
