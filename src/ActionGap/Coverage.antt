-- ===== src/ActionGap/Coverage.antt =====
-- Nothing that a subscriber has missed is lost, and what is kept is bounded.
use arcrelay_protocol.Prelude.{
  inl, inr, ◌⊎◌, ℕ, ◌+◌, ◌≤◌, ◌≡◌, refl, true, ◌||◌, Option, none, some, List, [], ◌∷◌, ◌++◌, arith,
  Bytes, bytes_eq, bytes_discrete, nat_eq, length, Bool-cases, contains, add_element,
  saturating_add,
}
use arcrelay_protocol.ActionGap.{
  ActionGap, EventGap, remember_sequence, forget_resources, has_no_room, remember_resource,
  remember_resources, remember_gap, max_action_gap_resource_ids, max_action_gap_resource_bytes,
}

abbrev pub total_length : List Bytes → ℕ
total_length [] = 0
total_length (x ∷ xs) = length x + total_length xs

-- The bytes are those of the ids, both are within their limits, and a full resync keeps no ids.
pub record IsBounded (g : ActionGap) : Type 0 where
  pub bytes : g.resource_bytes ≡ total_length g.resource_ids
  pub small : g.resource_bytes ≤ max_action_gap_resource_bytes
  pub few : length g.resource_ids ≤ max_action_gap_resource_ids
  pub resync : g.resync_all ≡ true → g.resource_ids ≡ []

-- The subscriber will be told of the resource, by its id or by a full resync.
abbrev pub Covers : Bytes → ActionGap → Type 0
Covers r g = (g.resync_all || contains r g.resource_ids) ≡ true

-- One call that reports a loss.
pub data Report : Type 0 where
  lost_sequence : ℕ → Report
  lost_resource : ℕ → Bytes → Report
  lost_gap : EventGap → Report

pub remember : Report → ActionGap → ActionGap
remember (lost_sequence sequence) = remember_sequence sequence
remember (lost_resource sequence r) = remember_resource sequence r
remember (lost_gap missed) = remember_gap missed

pub remember_all : List Report → ActionGap → ActionGap
remember_all [] g = g
remember_all (report ∷ reports) g = remember_all reports (remember report g)

pub sequence_of : Report → ℕ
sequence_of (lost_sequence sequence) = sequence
sequence_of (lost_resource sequence r) = sequence
sequence_of (lost_gap missed) = missed.first_missing_sequence

-- The resource is named in a report.
abbrev pub Names : Bytes → Report → Type 0
Names r (lost_sequence sequence) = ⊥
Names r (lost_resource sequence r') = r ≡ r'
Names r (lost_gap missed) = contains r missed.resource_ids ≡ true

remember_sequence-IsBounded :
    (n : ℕ) (g : ActionGap) → IsBounded g → IsBounded (remember_sequence n g)
unfolding remember_sequence
remember_sequence-IsBounded n g b = record {
  bytes = b.bytes;
  small = b.small;
  few = b.few;
  resync = b.resync;
}

forget-IsBounded : (g : ActionGap) → IsBounded (forget_resources g)
unfolding forget_resources
forget-IsBounded g = record {
  bytes = refl;
  small = omega arith;
  few = omega arith;
  resync = λ _. refl;
}

remember_resource-IsBounded :
    (n : ℕ) (r : Bytes) (g : ActionGap) → IsBounded g → IsBounded (remember_resource n r g)
unfolding remember_resource
remember_resource-IsBounded n r g b =
    let g' = remember_sequence n g in
    let b' = remember_sequence-IsBounded n g b in
    elim (Bool-cases (g'.resync_all || contains r g'.resource_ids)) [
      | inl known ↦ rw (known, remember_resource) b'
      | inr new ↦ elim (Bool-cases (has_no_room r g')) [
        | inl full ↦ rw (new, full, remember_resource) (forget-IsBounded g')
        | inr room ↦
            rw (new, room, remember_resource)
              (unfold has_no_room in
                unfold add_element in
                unfold saturating_add in
                record {
                  bytes = ground (arith, b'.bytes, b'.small, room, new);
                  small = ground (arith, room);
                  few = ground (arith, room, new);
                  resync = λ e. absurd (ground (arith, e, new));
                })
      ]
    ]

remember_resources-IsBounded :
    (n : ℕ) (rs : List Bytes) (g : ActionGap) → IsBounded g → IsBounded (remember_resources n rs g)
unfolding remember_resources
remember_resources-IsBounded n [] g b = b
remember_resources-IsBounded n (r ∷ rs) g b =
    remember_resources-IsBounded n rs _ (remember_resource-IsBounded n r g b)

remember_gap-IsBounded :
    (missed : EventGap) (g : ActionGap) → IsBounded g → IsBounded (remember_gap missed g)
unfolding remember_gap
remember_gap-IsBounded missed g b = by_ids missed.resource_ids refl
  where
    by_ids : (ids : List Bytes) → missed.resource_ids ≡ ids → IsBounded (remember_gap missed g)
    by_ids [] e =
        rw (e, remember_gap) (forget-IsBounded (remember_sequence missed.first_missing_sequence g))
    by_ids (r ∷ rs) e =
        rw (e, remember_gap)
          (remember_resources-IsBounded missed.first_missing_sequence missed.resource_ids
            (remember_sequence missed.first_missing_sequence g)
            (remember_sequence-IsBounded missed.first_missing_sequence g b))

-- Whatever is reported, the ids that are kept are at most 1024, their bytes are counted and at most
-- 262144, and there are none once all is to be resynchronized.
pub remember-IsBounded :
    (report : Report) (g : ActionGap) → IsBounded g → IsBounded (remember report g)
unfolding remember
remember-IsBounded (lost_sequence n) g b = remember_sequence-IsBounded n g b
remember-IsBounded (lost_resource n r) g b = remember_resource-IsBounded n r g b
remember-IsBounded (lost_gap missed) g b = remember_gap-IsBounded missed g b

remember_resource-Covers :
    (n : ℕ) (r q : Bytes) (g : ActionGap)
    → Covers q g ⊎ (q ≡ r)
    → Covers q (remember_resource n r g)
unfolding remember_resource remember_sequence forget_resources contains add_element
remember_resource-Covers n r q g (inl h) = ground (arith, h)
remember_resource-Covers n r q g (inr p) = ground (arith, p)

remember_resources-Covers :
    (n : ℕ) (rs : List Bytes) (q : Bytes) (g : ActionGap)
    → Covers q g ⊎ (contains q rs ≡ true)
    → Covers q (remember_resources n rs g)
unfolding remember_resources contains
remember_resources-Covers n [] q g (inl h) = h
remember_resources-Covers n [] q g (inr h) = absurd (ground (arith, h))
remember_resources-Covers n (r ∷ rs) q g (inl h) =
    remember_resources-Covers n rs q _ (inl (remember_resource-Covers n r q g (inl h)))
remember_resources-Covers n (r ∷ rs) q g (inr h) = elim (bytes_discrete q r) [
  | yes p ↦ remember_resources-Covers n rs q _ (inl (remember_resource-Covers n r q g (inr p)))
  | no p ↦ remember_resources-Covers n rs q _ (inr (ground (arith, h, p)))
]

remember-Covers :
    (report : Report) (q : Bytes) (g : ActionGap)
    → Covers q g ⊎ Names q report
    → Covers q (remember report g)
unfolding remember remember_sequence remember_gap remember_resources
remember-Covers (lost_sequence n) q g (inl h) = h
remember-Covers (lost_sequence n) q g (inr h) = absurd h
remember-Covers (lost_resource n r) q g h = remember_resource-Covers n r q g h
remember-Covers (lost_gap missed) q g h = by_ids missed.resource_ids refl
  where
    by_ids : (ids : List Bytes) → missed.resource_ids ≡ ids → Covers q (remember_gap missed g)
    by_ids [] e = unfold remember_gap in unfold forget_resources in ground (arith, e)
    by_ids (r ∷ rs) e =
        rw (e, remember_gap)
          (remember_resources-Covers missed.first_missing_sequence missed.resource_ids q
            (remember_sequence missed.first_missing_sequence g) h)

-- However losses are reported, in whatever number and order, a resource that one of the reports
-- names is covered at the end: the subscriber is told of it by its id, or to resynchronize all.
pub remember_all-Covers :
    (before after : List Report) (report : Report) (q : Bytes) (g : ActionGap)
    → Names q report
    → Covers q (remember_all (before ++ report ∷ after) g)
unfolding remember_all
remember_all-Covers [] after report q g h =
    covered_all after q _ (remember-Covers report q g (inr h))
  where
    covered_all :
        (reports : List Report) (q : Bytes) (g : ActionGap)
        → Covers q g
        → Covers q (remember_all reports g)
    covered_all [] q g h = h
    covered_all (r ∷ rs) q g h = covered_all rs q _ (remember-Covers r q g (inl h))
remember_all-Covers (r ∷ before) after report q g h =
    remember_all-Covers before after report q (remember r g) h

first-remember_resource :
    (n f : ℕ) (r : Bytes) (g : ActionGap)
    → g.first_missing_sequence ≡ some f
    → (remember_resource n r g).first_missing_sequence ≡ some f
unfolding remember_resource remember_sequence forget_resources
first-remember_resource n f r g h = ground (arith, h)

first-remember_resources :
    (n f : ℕ) (rs : List Bytes) (g : ActionGap)
    → g.first_missing_sequence ≡ some f
    → (remember_resources n rs g).first_missing_sequence ≡ some f
unfolding remember_resources
first-remember_resources n f [] g h = h
first-remember_resources n f (r ∷ rs) g h =
    first-remember_resources n f rs _ (first-remember_resource n f r g h)

abbrev or_first : Option ℕ → ℕ → ℕ
or_first none n = n
or_first (some f) n = f

first-remember_sequence :
    (n : ℕ) (g : ActionGap)
    → (remember_sequence n g).first_missing_sequence ≡ some (or_first g.first_missing_sequence n)
unfolding remember_sequence
first-remember_sequence n g = ground arith

first-remember :
    (report : Report) (g : ActionGap)
    → (remember report g).first_missing_sequence
      ≡ some (or_first g.first_missing_sequence (sequence_of report))
unfolding remember sequence_of
first-remember (lost_sequence n) g = first-remember_sequence n g
first-remember (lost_resource n r) g =
    unfold remember_resource in
    unfold forget_resources in ground (arith, first-remember_sequence n g)
first-remember (lost_gap missed) g =
    unfold remember_gap in
    unfold forget_resources in
    ground (
      arith,
      first-remember_sequence missed.first_missing_sequence g,
      first-remember_resources missed.first_missing_sequence
          (or_first g.first_missing_sequence missed.first_missing_sequence) missed.resource_ids
          (remember_sequence missed.first_missing_sequence g)
          (first-remember_sequence missed.first_missing_sequence g),
    )

stays_first :
    (reports : List Report) (f : ℕ) (g : ActionGap)
    → g.first_missing_sequence ≡ some f
    → (remember_all reports g).first_missing_sequence ≡ some f
unfolding remember_all
stays_first [] f g h = h
stays_first (report ∷ reports) f g h =
    stays_first reports f _ (ground (arith, h, first-remember report g))

-- The sequence number of the first report stays the first missing one, whatever is reported later.
pub remember_all_first :
    (report : Report) (reports : List Report) (g : ActionGap)
    → g.first_missing_sequence ≡ none
    → (remember_all (report ∷ reports) g).first_missing_sequence ≡ some (sequence_of report)
unfolding remember_all
remember_all_first report reports g h =
    stays_first reports (sequence_of report) _ (ground (arith, h, first-remember report g))
