-- ===== src/RemoteFiles/Confined.antt =====
-- Where the paths of an accepted request lead.
use arcrelay_protocol.Prelude.{
  inl, inr, ◌⊎◌, sym, subst, ℕ, ◌≤◌, ◌≡◌, ◌≢◌, refl, true, false, ◌||◌, Option, none, some, List,
  [], ◌∷◌, ◌++◌, arith, ◌==◌, if◌then◌else◌, Bytes, bytes_eq, nat_eq, same, length, any, All,
  All-append, contains, has_control, split, extend_first, bytes, Bool-cases,
}
use mathlib.Core.List.{reverse, append_assoc, reverse-cons}
use arcrelay_protocol.RemoteFiles.{ContentSizes}
use arcrelay_protocol.RemoteFiles.Paths.{
  validate_relative_path, validate_file_name, is_bad_component,
}
use arcrelay_protocol.RemoteFiles.Requests.{
  RemoteFileRequest, list_shares, watch_changes, stat, move_entry, conditional_delete, read_range,
  conditional_upload, list_directory, create_directory, rename, delete, download, thumbnail, upload,
  validate,
}

-- A name in a directory: not a step to somewhere else, and of one component on every system.
pub record IsPlain (component : Bytes) : Type 0 where
  pub filled : component ≢ []
  pub not_here : component ≢ bytes "."
  pub not_up : component ≢ bytes ".."
  pub short : length component ≤ 255
  pub no_slash : contains b'/' component ≡ false
  pub no_backslash : contains b'\\' component ≡ false
  pub no_control : has_control component ≡ false

-- What every component of a split text has, whatever the text: no separator; and no backslash and no
-- control character if the text has none.
Part : Bytes → Type 0
Part c = (contains b'/' c ≡ false) × (contains b'\\' c ≡ false) × (has_control c ≡ false)

-- A character put before the first part of a text that begins with `c`.
extend-Part :
    (b c : ℕ) (rest : Bytes) (parts : List Bytes)
    → contains b'\\' (b ∷ []) ≡ false
    → has_control (b ∷ c ∷ rest) ≡ false
    → (b == b'/') ≡ false
    → All Part (elim (c == b'/') [ true ↦ [] ∷ parts | false ↦ extend_first c parts ])
    → All Part
        (extend_first b (elim (c == b'/') [ true ↦ [] ∷ parts | false ↦ extend_first c parts ]))
unfolding has_control contains extend_first Part
extend-Part b c rest [] h k n a = ground (arith, h, k, n, a)
extend-Part b c rest (part ∷ parts) h k n a = ground (arith, h, k, n, a)

split-Part :
    (p : Bytes) → contains b'\\' p ≡ false → has_control p ≡ false → All Part (split b'/' p)
unfolding split has_control contains Part
split-Part [] h k = ((refl, refl, refl), tt)
split-Part (b ∷ []) h k = elim (Bool-cases (b == b'/')) [
  | inl e ↦ rw (e, All) ((refl, refl, refl), ((refl, refl, refl), tt))
  | inr e ↦ rw (e, All) (ground (arith, h, k, e))
]
split-Part (b ∷ c ∷ rest) h k =
    let ih = split-Part (c ∷ rest) (ground (arith, h)) (ground (arith, k)) in
    elim (Bool-cases (b == b'/')) [
      | inl e ↦ rw (e, All) ((refl, refl, refl), ih)
      | inr e ↦ rw (e, All) (extend-Part b c rest (split b'/' rest) (ground (arith, h)) k e ih)
    ]

Part-IsPlain :
    (parts : List Bytes) → All Part parts → any is_bad_component parts ≡ false → All IsPlain parts
unfolding is_bad_component Part
Part-IsPlain [] a h = tt
Part-IsPlain (part ∷ parts) (here, rest) h = (
  record {
    filled = λ e. ground (arith, h, e);
    not_here = λ e. ground (arith, h, e);
    not_up = λ e. ground (arith, h, e);
    short = ground (arith, h);
    no_slash = here.0;
    no_backslash = here.1;
    no_control = here.2;
  },
  Part-IsPlain parts rest (ground (arith, h)),
)

-- The components of a path; the root of the share has none.
pub components : Bytes → List Bytes
components [] = []
components (b ∷ rest) = split b'/' (b ∷ rest)

components-IsPlain : (p : Bytes) → validate_relative_path p ≡ none → All IsPlain (components p)
unfolding validate_relative_path components
components-IsPlain [] h = tt
components-IsPlain (b ∷ rest) h =
    Part-IsPlain (split b'/' (b ∷ rest))
      (split-Part (b ∷ rest) (ground (arith, h)) (ground (arith, h))) (ground (arith, h))

name-IsPlain : (name : Bytes) → validate_file_name name ≡ none → IsPlain name
unfolding validate_file_name
name-IsPlain name h = record {
  filled = λ e. ground (arith, h, e);
  not_here = λ e. ground (arith, h, e);
  not_up = λ e. ground (arith, h, e);
  short = ground (arith, h);
  no_slash = ground (arith, h);
  no_backslash = ground (arith, h);
  no_control = ground (arith, h);
}

-- A walk from the root of a share, as a file system makes it: the place is the list of the
-- directories entered, the last first, and a step above the root is `none`.
pub walk : List Bytes → List Bytes → Option (List Bytes)
walk [] place = some place
walk (component ∷ rest) place =
    if same component (bytes "..")
    then elim place [ [] ↦ none | parent ∷ above ↦ walk rest above ]
    else walk rest
        (if same component (bytes ".") || length component == 0 then place else component ∷ place)

-- A walk that only goes down, by names of its own.
pub record IsConfined (target : List Bytes) : Type 0 where
  pub plain : All IsPlain target
  pub inside : (place : List Bytes) → walk target place ≡ some (reverse target ++ place)

walk-reverse :
    (target : List Bytes)
    → All IsPlain target
    → (place : List Bytes) → walk target place ≡ some (reverse target ++ place)
unfolding walk
walk-reverse [] a place = refl
walk-reverse (c ∷ rest) (here, a) place = ground (
  arith,
  here.not_here,
  here.not_up,
  here.filled,
  walk-reverse rest a (c ∷ place),
  append_assoc (reverse rest) (c ∷ []) place,
  reverse-cons c rest,
)

IsPlain-IsConfined : (target : List Bytes) → All IsPlain target → IsConfined target
IsPlain-IsConfined target a = record { plain = a; inside = walk-reverse target a }

path-IsConfined : (p : Bytes) → validate_relative_path p ≡ none → IsConfined (components p)
path-IsConfined p h = IsPlain-IsConfined (components p) (components-IsPlain p h)

child-IsConfined :
    (p name : Bytes)
    → validate_relative_path p ≡ none
    → validate_file_name name ≡ none
    → IsConfined (components p ++ name ∷ [])
child-IsConfined p name h k = IsPlain-IsConfined (components p ++ name ∷ []) (
    All-append IsPlain (components p) (name ∷ []) (components-IsPlain p h)
      (name-IsPlain name k, tt))

-- The place of a new name for a path: that of the root of the share is above it.
pub beside : List Bytes → Bytes → List Bytes
beside [] name = bytes ".." ∷ name ∷ []
beside (last ∷ []) name = name ∷ []
beside (component ∷ next ∷ rest) name = component ∷ beside (next ∷ rest) name

beside-IsPlain :
    (first : Bytes) (path : List Bytes) (name : Bytes)
    → All IsPlain (first ∷ path)
    → IsPlain name
    → All IsPlain (beside (first ∷ path) name)
unfolding beside
beside-IsPlain last [] name a n = (n, tt)
beside-IsPlain component (next ∷ rest) name a n = (a.0, beside-IsPlain next rest name a.1 n)

-- A path that is not empty has a component.
extended :
    (b : ℕ) (parts : List Bytes)
    → (first : Bytes) × (path : List Bytes) × (extend_first b parts ≡ first ∷ path)
unfolding extend_first
extended b [] = (b ∷ [], [], refl)
extended b (part ∷ parts) = (b ∷ part, parts, refl)

some_component :
    (b : ℕ) (rest : Bytes)
    → (first : Bytes) × (path : List Bytes) × (split b'/' (b ∷ rest) ≡ first ∷ path)
unfolding split
some_component b rest =
    let (first, path, e) = extended b (split b'/' rest) in
    elim (Bool-cases (b == b'/')) [
      | inl separator ↦ ([], split b'/' rest, ground (arith, separator))
      | inr other ↦ (first, path, ground (arith, other, e))
    ]

renamed-IsPlain :
    (b : ℕ) (rest name : Bytes)
    → validate_relative_path (b ∷ rest) ≡ none
    → validate_file_name name ≡ none
    → All IsPlain (beside (components (b ∷ rest)) name)
unfolding components
renamed-IsPlain b rest name h k =
    let (first, path, e) = some_component b rest in
    let plain = components-IsPlain (b ∷ rest) h in
    subst (λ (parts : List Bytes). All IsPlain (beside parts name)) (sym e)
      (beside-IsPlain first path name (subst (λ (parts : List Bytes). All IsPlain parts) e plain)
        (name-IsPlain name k))

-- The places in a share that an operation reads or changes.
unfoldable pub targets : RemoteFileRequest → List (List Bytes)
targets list_shares = []
targets (watch_changes share_id epoch after_sequence) = []
targets (stat share_id path) = components path ∷ []
targets (move_entry share_id path destination overwrite expected_revision) =
    components path ∷ components destination ∷ []
targets (conditional_delete share_id path expected_revision recursive) = components path ∷ []
targets (read_range share_id path offset length' revision) = components path ∷ []
targets (conditional_upload share_id path name size expected_revision) =
    (components path ++ name ∷ []) ∷ []
targets (list_directory share_id path cursor limit wanted key direction) = components path ∷ []
targets (create_directory share_id path name) = (components path ++ name ∷ []) ∷ []
targets (rename share_id path new_name) = components path ∷ beside (components path) new_name ∷ []
targets (delete share_id path) = components path ∷ []
targets (download share_id path) = components path ∷ []
targets (thumbnail share_id path max_dimension) = components path ∷ []
targets (upload share_id path name size overwrite expected_modified_at_ms) =
    (components path ++ name ∷ []) ∷ []

-- The one request whose target is not in the share: a new name for its root.
pub data RenamesRoot : RemoteFileRequest → Type 0 where
  renames_root : (share_id new_name : Bytes) → RenamesRoot (rename share_id [] new_name)

-- Whatever a request names, if it is accepted and does not rename the root: a walk along it, from the
-- root of the share or any place below, enters only directories of its own and steps nowhere else; no
-- component is empty, `.` or `..`, longer than 255 bytes, or holds a slash, a backslash or a control
-- character.
pub validate-IsConfined :
    (sizes : ContentSizes) (r : RemoteFileRequest)
    → validate sizes r ≡ none
    → RenamesRoot r ⊎ All IsConfined (targets r)
unfolding validate targets
validate-IsConfined sizes list_shares h = inr tt
validate-IsConfined sizes (watch_changes share_id epoch after_sequence) h = inr tt
validate-IsConfined sizes (stat share_id path) h =
    inr (path-IsConfined path (ground (arith, h)), tt)
validate-IsConfined sizes (move_entry share_id path destination overwrite expected_revision) h =
    inr (
      path-IsConfined path (ground (arith, h)),
      (path-IsConfined destination (ground (arith, h)), tt),
    )
validate-IsConfined sizes (conditional_delete share_id path expected_revision recursive) h =
    inr (path-IsConfined path (ground (arith, h)), tt)
validate-IsConfined sizes (read_range share_id path offset length' revision) h =
    inr (path-IsConfined path (ground (arith, h)), tt)
validate-IsConfined sizes (conditional_upload share_id path name size expected_revision) h =
    inr (child-IsConfined path name (ground (arith, h)) (ground (arith, h)), tt)
validate-IsConfined sizes (list_directory share_id path cursor limit wanted key direction) h =
    inr (path-IsConfined path (ground (arith, h)), tt)
validate-IsConfined sizes (create_directory share_id path name) h =
    inr (child-IsConfined path name (ground (arith, h)) (ground (arith, h)), tt)
validate-IsConfined sizes (rename share_id [] new_name) h = inl (renames_root share_id new_name)
validate-IsConfined sizes (rename share_id (b ∷ rest) new_name) h =
    let path = b ∷ rest in
    inr (
      path-IsConfined path (ground (arith, h)),
      (
        IsPlain-IsConfined _
            (renamed-IsPlain b rest new_name (ground (arith, h)) (ground (arith, h))),
        tt,
      ),
    )
validate-IsConfined sizes (delete share_id path) h =
    inr (path-IsConfined path (ground (arith, h)), tt)
validate-IsConfined sizes (download share_id path) h =
    inr (path-IsConfined path (ground (arith, h)), tt)
validate-IsConfined sizes (thumbnail share_id path max_dimension) h =
    inr (path-IsConfined path (ground (arith, h)), tt)
validate-IsConfined sizes (upload share_id path name size overwrite expected_modified_at_ms) h =
    inr (child-IsConfined path name (ground (arith, h)) (ground (arith, h)), tt)
