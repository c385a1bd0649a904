-- ===== src/Negotiation/Highest.antt =====
-- The versions that `negotiate_features` selects.
use arcrelay_protocol.Prelude.{
  inl, inr, ℕ, ◌≤◌, ◌≡◌, refl, true, ◌||◌, Option, none, some, List, [], ◌∷◌, arith, leb,
  if◌then◌else◌, bytes_eq, nat_eq, ℕ_discrete, same, length, Map, get, insert, get-insert,
  Option-cases, Bool-cases, is_some_and,
}
use arcrelay_protocol.Prelude.{min, max}
use arcrelay_protocol.Negotiation.{
  FeatureVersion, FeatureNumbers, is_invalid_range, client_ranges, select_features,
  negotiate_features,
}

-- The offer of one side for a feature; the first, if there are several.
abbrev pub range_of : ℕ → List FeatureVersion → Option (ℕ × ℕ)
range_of n [] = none
range_of n (f ∷ fs) =
    if same n f.feature then some (f.min_version, f.max_version) else range_of n fs

-- No feature is offered twice.
abbrev pub IsOffer : List FeatureVersion → Type 0
IsOffer [] = Unit {0}
IsOffer (f ∷ fs) = (range_of f.feature fs ≡ none) × IsOffer fs

-- The highest version that two ranges have in common.
abbrev pub highest_common : Option (ℕ × ℕ) → Option (ℕ × ℕ) → Option ℕ
highest_common (some (a, b)) (some (c, d)) =
    if leb (max a c) (min b d) then some (min b d) else none
highest_common none r = none
highest_common (some r) none = none

module _ (numbers : FeatureNumbers) where
  get-client_ranges :
      (n : ℕ) (client : List FeatureVersion) (ranges result : Map ℕ (ℕ × ℕ))
      → client_ranges numbers client ranges ≡ some result
      → get n result ≡ elim (get n ranges) [ some r ↦ some r | none ↦ range_of n client ]
  unfolding client_ranges
  get-client_ranges n [] ranges result h = ground (arith, h)
  get-client_ranges n (f ∷ client) ranges result h =
      elim (Bool-cases
        (is_invalid_range numbers f || is_some_and (get f.feature ranges) (λ range. true))) [
          | inl bad ↦ absurd (ground (arith, bad, h))
          | inr good ↦
              let next =
                get-client_ranges n client (insert f.feature (f.min_version, f.max_version) ranges)
                  result (ground (arith, good, h)) in
              ground
                (arith, good, next, get-insert n f.feature (f.min_version, f.max_version) ranges)
        ]

  get-select_features_other :
      (n : ℕ) (ranges : Map ℕ (ℕ × ℕ)) (server : List FeatureVersion) (selected : Map ℕ ℕ)
      → range_of n server ≡ none
      → get n (select_features numbers ranges server selected) ≡ get n selected
  unfolding select_features
  get-select_features_other n ranges [] selected h = refl
  get-select_features_other n ranges (f ∷ server) selected h =
      elim (Option-cases (get f.feature ranges)) [
        | inl miss ↦ ground (arith, miss, h, get-select_features_other n ranges server selected)
        | inr ((a, b), hit) ↦
            let selected' =
              if leb (max a f.min_version) (min b f.max_version)
              then insert f.feature (min b f.max_version) selected
              else selected in
            ground (
              arith,
              hit,
              h,
              get-select_features_other n ranges server selected',
              get-insert n f.feature (min b f.max_version) selected,
            )
      ]

  get-select_features :
      (n : ℕ) (ranges : Map ℕ (ℕ × ℕ)) (server : List FeatureVersion) (selected : Map ℕ ℕ)
      → IsOffer server
      → get n selected ≡ none
      → get n (select_features numbers ranges server selected)
        ≡ highest_common (get n ranges) (range_of n server)
  unfolding select_features
  get-select_features n ranges [] selected o h = ground (arith, h)
  get-select_features n ranges (f ∷ server) selected o h =
      elim (Option-cases (get f.feature ranges)) [
        | inl miss ↦ elim (ℕ_discrete n f.feature) [
          | yes p ↦
              ground
                (arith, p, miss, h, o.0, get-select_features_other f.feature ranges server selected)
          | no p ↦ ground (arith, p, miss, h, get-select_features n ranges server selected o.1)
        ]
        | inr ((a, b), hit) ↦
            let top = min b f.max_version in
            let selected' =
              if leb (max a f.min_version) top then insert f.feature top selected else selected in
            elim (ℕ_discrete n f.feature) [
              | yes p ↦ ground (
                arith,
                p,
                hit,
                h,
                o.0,
                get-select_features_other f.feature ranges server selected',
                get-insert f.feature f.feature top selected,
              )
              | no p ↦
                  let kept : get n selected' ≡ none =
                    ground (arith, p, h, get-insert n f.feature top selected) in
                  ground (arith, p, hit, get-select_features n ranges server selected' o.1 kept)
            ]
      ]

  -- If the negotiation succeeds and the server offers no feature twice, then for every feature the
  -- version selected is the highest that the client's range and the server's have in common, and
  -- there is none if a side does not offer the feature or they have none in common.
  pub negotiate_features-highest_common :
      (n : ℕ) (client server : List FeatureVersion) (selected : Map ℕ ℕ)
      → IsOffer server
      → negotiate_features numbers client server ≡ some selected
      → get n selected ≡ highest_common (range_of n client) (range_of n server)
  unfolding negotiate_features
  negotiate_features-highest_common n client server selected o h =
      elim (Option-cases (client_ranges numbers client [])) [
        | inl refused ↦ absurd (ground (arith, refused, h))
        | inr (ranges, accepted) ↦
            let empty : Map ℕ ℕ = [] in
            let none_yet : get n empty ≡ none = unfold get in refl in
            let of_client : get n ranges ≡ range_of n client =
              unfold get in get-client_ranges n client [] ranges accepted in
            ground
              (arith, accepted, h, of_client, get-select_features n ranges server [] o none_yet)
      ]

  IsOffer-client_ranges :
      (client : List FeatureVersion) (ranges result : Map ℕ (ℕ × ℕ))
      → client_ranges numbers client ranges ≡ some result
      → IsOffer client × ((n : ℕ) (r : ℕ × ℕ) → range_of n client ≡ some r → get n ranges ≡ none)
  unfolding client_ranges
  IsOffer-client_ranges [] ranges result h = (tt, λ n r q. cc)
  IsOffer-client_ranges (f ∷ client) ranges result h =
      elim (Bool-cases
        (is_invalid_range numbers f || is_some_and (get f.feature ranges) (λ range. true))) [
          | inl bad ↦ absurd (ground (arith, bad, h))
          | inr good ↦
              let (offer, fresh) =
                IsOffer-client_ranges client
                  (insert f.feature (f.min_version, f.max_version) ranges) result
                  (ground (arith, good, h)) in
              let once : range_of f.feature client ≡ none =
                elim (Option-cases (range_of f.feature client)) [
                  | inl e ↦ e
                  | inr (r, e) ↦ absurd (
                      ground (
                        arith,
                        fresh f.feature r e,
                        get-insert f.feature f.feature (f.min_version, f.max_version) ranges,
                      ))
                ] in
              (
                (once, offer),
                λ n r q. ground (
                  arith,
                  good,
                  q,
                  fresh n r,
                  get-insert n f.feature (f.min_version, f.max_version) ranges,
                ),
              )
        ]

  -- A client whose features are accepted offers at most 64, and none twice.
  pub negotiate_features-IsOffer :
      (client server : List FeatureVersion) (selected : Map ℕ ℕ)
      → negotiate_features numbers client server ≡ some selected
      → (length client ≤ 64) × IsOffer client
  unfolding negotiate_features
  negotiate_features-IsOffer client server selected h =
      elim (Option-cases (client_ranges numbers client [])) [
        | inl refused ↦ absurd (ground (arith, refused, h))
        | inr (ranges, accepted) ↦
            (ground (arith, h), (IsOffer-client_ranges client [] ranges accepted).0)
      ]
