-- ===== src/Storage/Archive/Entries.antt =====
-- What an archive holds.
use rcp_server.Base.{
  ℕ, ◌≡◌, ◌≢◌, refl, Bool, true, text_eq, false, ◌||◌, List, [], ◌∷◌, ◌++◌, some, if◌then◌else◌,
  ◌==◌, Text, is_empty, any, All, ap, ◌∙◌, sym, subst, ==_iff, arith, Bool-cases, Option-cases, ◌⊎◌,
  inl, inr,
}
use rcp_server.Storage.Archive.Below.{
  IsTrimmed, IsFolder, IsSelection, trim_slashes-IsTrimmed, normalize_object_prefix-IsFolder,
  matches-IsSelection,
}
use rcp_server.Effects.{Result, ok, err, Result-cases}
use rcp_server.Storage.{
  Error, World, swift, failed, downloads, resolve_container, list_remote, objects_of,
}
use rcp_server.Storage.Archive.{
  trim_slashes, segments, push_segment, is_bad_segment, safe_zip_entry_name, matches,
  normalize_object_prefix, Written, broken, close, add_entries, write_matches, archive_listed,
  archive_resolved, archive_objects,
}

-- strings.Join at slashes
abbrev pub joined : List Text → Text
joined [] = []
joined (s ∷ []) = s
joined (s ∷ t ∷ ss) = s ++ (b'/' ∷ joined (t ∷ ss))

-- no slash in it, and neither empty nor . nor ..
abbrev pub IsSegment : Text → Type 0
IsSegment s = All (λ c. (c == b'/') ≡ false) s × (s ≢ []) × (s ≢ b'.' ∷ []) × (s ≢ b'.' ∷ b'.' ∷ [])

-- a relative path of such segments
abbrev pub IsSafe : Text → Type 0
IsSafe entry =
    (first : Text) × ((parts : List Text) × (entry ≡ joined (first ∷ parts))
      × All IsSegment (first ∷ parts))

-- a safe entry for an object: its name without the slashes that it begins with
abbrev pub IsEntryOf : Text → Text → Type 0
IsEntryOf name entry = IsSafe entry × IsTrimmed name entry

segments-cons : (s : Text) → (t : Text) × ((ts : List Text) × (segments s ≡ t ∷ ts))
segments-cons [] = ([], ([], refl))
segments-cons (c ∷ s) =
    let (t, (ts, is)) = segments-cons s in
    elim (Bool-cases (c == b'/')) [
      | inl slash ↦ rw (slash, is) ([], (t ∷ ts, refl))
      | inr other ↦ rw (other, is) (c ∷ t, (ts, refl))
    ]

joined-push_segment :
    (c : ℕ) (t : Text) (ts : List Text) → joined ((c ∷ t) ∷ ts) ≡ c ∷ joined (t ∷ ts)
joined-push_segment c t [] = refl
joined-push_segment c t (u ∷ us) = refl

joined-step :
    (c : ℕ) (s : Text) (ps : List Text)
    → ((t : Text) × ((ts : List Text) × (ps ≡ t ∷ ts)))
    → joined ps ≡ s
    → joined (if c == b'/' then [] ∷ ps else push_segment c ps) ≡ c ∷ s
joined-step c s [] (t, (ts, is)) h = absurd (ground arith)
joined-step c s (p ∷ ps) there h = elim (Bool-cases (c == b'/')) [
  | inl slash ↦ rw (slash, h) (ground (arith, ==_iff c b'/'))
  | inr other ↦ rw other (joined-push_segment c p ps ∙ ap (λ x. c ∷ x) h)
]

joined-segments : (s : Text) → joined (segments s) ≡ s
joined-segments [] = refl
joined-segments (c ∷ s) = joined-step c s (segments s) (segments-cons s) (joined-segments s)

slash-step :
    (c : ℕ) (ps : List Text)
    → All (All (λ d. (d == b'/') ≡ false)) ps
    → All (All (λ d. (d == b'/') ≡ false)) (if c == b'/' then [] ∷ ps else push_segment c ps)
slash-step c ps h = elim (Bool-cases (c == b'/')) [
  | inl slash ↦ rw slash (tt, h)
  | inr other ↦ rw other (pushed c ps other h)
]
  where
    pushed :
        (c : ℕ) (ps : List Text)
        → (c == b'/') ≡ false
        → All (All (λ d. (d == b'/') ≡ false)) ps
        → All (All (λ d. (d == b'/') ≡ false)) (push_segment c ps)
    pushed c [] other h = ((other, tt), tt)
    pushed c (p ∷ ps) other (k, h) = ((other, k), h)

segments-slash : (s : Text) → All (All (λ c. (c == b'/') ≡ false)) (segments s)
segments-slash [] = (tt, tt)
segments-slash (c ∷ s) = slash-step c (segments s) (segments-slash s)

good_segment :
    (s : Text) → is_bad_segment s ≡ false → (s ≢ []) × (s ≢ b'.' ∷ []) × (s ≢ b'.' ∷ b'.' ∷ [])
unfolding text_eq
good_segment s h = (
  (λ is. true-ne-false (sym (ap is_bad_segment is) ∙ h)),
  (λ is. true-ne-false (sym (ap is_bad_segment is) ∙ h)),
  (λ is. true-ne-false (sym (ap is_bad_segment is) ∙ h)),
)
  where
    true-ne-false : true ≢ false
    true-ne-false h = ground arith

good_segments :
    (ps : List Text)
    → All (All (λ c. (c == b'/') ≡ false)) ps
    → any is_bad_segment ps ≡ false
    → All IsSegment ps
good_segments [] h k = tt
good_segments (p ∷ ps) (h, hs) k =
    let (full, not_dot, not_dots) = good_segment p (ground (arith, k)) in
    ((h, full, not_dot, not_dots), good_segments ps hs (ground (arith, k)))

good-IsSafe : (s : Text) → any is_bad_segment (segments s) ≡ false → IsSafe s
good-IsSafe s h =
    let (t, (ts, is)) = segments-cons s in
    (
      t,
      (
        ts,
        sym (joined-segments s) ∙ ap joined is,
        subst (All IsSegment) is (good_segments (segments s) (segments-slash s) h),
      ),
    )

pub safe_zip_entry_name-IsEntryOf :
    (name entry : Text) → safe_zip_entry_name name ≡ some entry → IsEntryOf name entry
unfolding safe_zip_entry_name
safe_zip_entry_name-IsEntryOf name entry h =
    elim (Bool-cases
      (is_empty (trim_slashes name) || any is_bad_segment (segments (trim_slashes name)))) [
        | inl bad ↦ absurd (ground (arith, bad, h))
        | inr good ↦
            (let is : trim_slashes name ≡ entry = ground (arith, good, h) in
              subst (IsEntryOf name) is (
                good-IsSafe (trim_slashes name) (ground (arith, good)),
                trim_slashes-IsTrimmed name,
              ))
      ]

-- One entry for each of the names, in their order; `before` and `after` are the newest first.
abbrev pub IsAdded : List Text → List Text → List Text → Type 0
IsAdded [] before after = after ≡ before
IsAdded (name ∷ names) before after =
    (entry : Text) × IsEntryOf name entry × IsAdded names (entry ∷ before) after

-- one entry for each of the names below the prefix that the caller asks for
abbrev pub Archives : Text → List Text → List Text → Type 0
Archives raw names entries =
    (prefix : Text) × ((chosen : List Text) × IsFolder raw prefix
      × IsSelection prefix names chosen
      × IsAdded chosen [] entries)

abbrev pub AddsAll : List Text → List Text → Written → Type 0
AddsAll names before ((ok _, w), after) = All IsSafe after × IsAdded names before after
AddsAll names before ((err e, w), after) = All IsSafe after

abbrev pub IsArchive : (owner : ℕ) (container raw : Text) → World → Written → Type 0
IsArchive owner container raw w ((ok _, w'), entries) =
    All IsSafe entries
    × ((id : ℕ) × ((v : World) × ((names : List Text) × (resolve_container owner container w
              ≡ (ok id, v))
            × ((list_remote objects_of id v).0 ≡ ok names)
            × Archives raw names entries)))
IsArchive owner container raw w ((err e, w'), entries) = All IsSafe entries

module _ (opens : List Text → Text → Bool) (closes : List Text → Bool) where
  one_more-AddsAll :
      (name entry : Text) (names entries : List Text) (written : Written)
      → IsEntryOf name entry
      → AddsAll names (entry ∷ entries) written
      → AddsAll (name ∷ names) entries written
  one_more-AddsAll name entry names entries ((ok _, w), after) good (h, added) =
      (h, (entry, good, added))
  one_more-AddsAll name entry names entries ((err e, w), after) good h = h

  close-AddsAll :
      (w : World) (entries : List Text)
      → All IsSafe entries
      → AddsAll [] entries (close opens closes w entries)
  close-AddsAll w entries h = elim (Bool-cases (closes entries)) [
    | inl closed ↦ rw closed (h, refl)
    | inr not_closed ↦ rw not_closed h
  ]

  -- one turn of the loop
  add_entries_cases :
      (id : ℕ) (name : Text) (names : List Text) (w : World) (entries : List Text)
      → (add_entries opens closes id (name ∷ names) w entries ≡ broken w entries)
        ⊎ ((entry : Text) × (safe_zip_entry_name name ≡ some entry)
            × ((v : World) × ((add_entries opens closes id (name ∷ names) w entries
                    ≡ broken v (entry ∷ entries))
                  ⊎ (add_entries opens closes id (name ∷ names) w entries
                      ≡ add_entries opens closes id names v (entry ∷ entries)))))
  unfolding add_entries
  add_entries_cases id name names w entries = elim (Option-cases (safe_zip_entry_name name)) [
    | inl bad ↦ inl (rw (add_entries, bad) refl)
    | inr (entry, good) ↦ elim (Bool-cases (opens entries entry)) [
      | inr full ↦ inl (rw (add_entries, good, full) refl)
      | inl opened ↦ elim (Result-cases (swift failed (downloads id name) w).0) [
        | inr (e, fails) ↦ inr (
          entry,
          good,
          (
            (swift failed (downloads id name) w).1,
            inl (rw (add_entries, good, opened, fails) refl),
          ),
        )
        | inl (_, works) ↦ inr (
          entry,
          good,
          (
            (swift failed (downloads id name) w).1,
            inr (rw (add_entries, good, opened, works) refl),
          ),
        )
      ]
    ]
  ]

  add_entries-AddsAll :
      (id : ℕ) (names : List Text) (w : World) (entries : List Text)
      → All IsSafe entries
      → AddsAll names entries (add_entries opens closes id names w entries)
  unfolding add_entries
  add_entries-AddsAll id [] w entries h = close-AddsAll w entries h
  add_entries-AddsAll id (name ∷ names) w entries h =
      elim (add_entries_cases id name names w entries) [
        | inl ends ↦ subst (AddsAll (name ∷ names) entries) (sym ends) h
        | inr (entry, good, (v, inl ends)) ↦
            subst (AddsAll (name ∷ names) entries) (sym ends)
              ((safe_zip_entry_name-IsEntryOf name entry good).0, h)
        | inr (entry, good, (v, inr goes_on)) ↦
            subst (AddsAll (name ∷ names) entries) (sym goes_on) (
              one_more-AddsAll name entry names entries _
                (safe_zip_entry_name-IsEntryOf name entry good)
                (add_entries-AddsAll id names v (entry ∷ entries)
                  ((safe_zip_entry_name-IsEntryOf name entry good).0, h)))
      ]

  written-IsArchive :
      (owner : ℕ) (container raw : Text) (w v : World) (id : ℕ) (names : List Text)
      (written : Written)
      → resolve_container owner container w ≡ (ok id, v)
      → (list_remote objects_of id v).0 ≡ ok names
      → AddsAll (matches (normalize_object_prefix raw) names) [] written
      → IsArchive owner container raw w written
  written-IsArchive owner container raw w v id names ((ok _, _), after) found seen (h, added) = (
    h,
    (
      id,
      (
        v,
        (
          names,
          found,
          seen,
          (
            normalize_object_prefix raw,
            (
              matches (normalize_object_prefix raw) names,
              normalize_object_prefix-IsFolder raw,
              matches-IsSelection (normalize_object_prefix raw) names,
              added,
            ),
          ),
        ),
      ),
    ),
  )
  written-IsArchive owner container raw w v id names ((err e, _), after) found seen h = h

  matches-AddsAll :
      (id : ℕ) (names : List Text) (w : World)
      → AddsAll names [] (write_matches opens closes id names w)
  matches-AddsAll id [] w = tt
  matches-AddsAll id (name ∷ names) w = add_entries-AddsAll id (name ∷ names) w [] tt

  listed-IsArchive :
      (owner : ℕ) (container raw : Text) (w v u : World) (id : ℕ) (names : Result Error (List Text))
      → resolve_container owner container w ≡ (ok id, v)
      → (list_remote objects_of id v).0 ≡ names
      → IsArchive owner container raw w (archive_listed opens closes raw id (names, u))
  listed-IsArchive owner container raw w v u id (err e) found seen = tt
  listed-IsArchive owner container raw w v u id (ok names) found seen =
      written-IsArchive owner container raw w v id names _ found seen
        (matches-AddsAll id (matches (normalize_object_prefix raw) names) u)

  resolved-IsArchive :
      (owner : ℕ) (container raw : Text) (w v : World) (found : Result Error ℕ)
      → resolve_container owner container w ≡ (found, v)
      → IsArchive owner container raw w (archive_resolved opens closes raw (found, v))
  resolved-IsArchive owner container raw w v (err e) is = tt
  resolved-IsArchive owner container raw w v (ok id) is =
      listed-IsArchive owner container raw w v (list_remote objects_of id v).1 id
        (list_remote objects_of id v).0 is refl

  -- However ArchiveObjects ends, each entry of the archive is a relative path without empty
  -- segments, . and .., so unpacking it stays below the directory. Where it succeeds, Swift has
  -- listed the container's objects, and the entries are those objects whose names begin with the
  -- prefix, which ends with a slash unless it is empty, each as often as it is listed and in byte
  -- order; an entry is the name without the slashes that it begins with.
  pub archive_objects-IsArchive :
      (owner : ℕ) (container raw : Text) (w : World)
      → IsArchive owner container raw w (archive_objects opens closes owner container raw w)
  unfolding archive_objects
  archive_objects-IsArchive owner container raw w =
      resolved-IsArchive owner container raw w _ _ refl
