-- ===== src/Registrar/Canonical.antt =====
-- The registry file: the states by file name (`toCanonical` of lc-lib/registrar/registrar.go).
use log_courier.Common.{
  sym, subst, beq_refl, ◌≡◌, refl, ap, ◌∙◌, ◌≢◌, ◌⊎◌, inl, inr, String, [], ◌∷◌, Option, none, some,
  if◌then◌else◌, lookup, insert, lookup-insert, string_eq, Assoc, Bool-cases,
}
use log_courier.Registrar.{FileState, State, to_canonical, to_canonical_from}

-- The state of some stream.
abbrev pub Has : FileState → State → Type 0
Has fs [] = ⊥
Has fs ((stream, g) ∷ state) = (g ≡ fs) ⊎ Has fs state

-- No two streams stand under one file name.
abbrev pub IsConflictFree : State → Type 0
IsConflictFree [] = Unit {0}
IsConflictFree ((stream, g) ∷ state) =
    ((h : FileState) → Has h state → h.source ≢ g.source) × IsConflictFree state

newest : String → Option FileState → State → Option FileState
newest source d [] = d
newest source d ((stream, g) ∷ state) =
    newest source (if string_eq.beq g.source source then some g else d) state

lookup-to_canonical_from :
    (source : String) (canonical : Assoc String FileState) (state : State)
    → lookup source (to_canonical_from canonical state)
      ≡ newest source (lookup source canonical) state
unfolding to_canonical_from newest
lookup-to_canonical_from source canonical [] = refl
lookup-to_canonical_from source canonical ((stream, g) ∷ state) =
    lookup-to_canonical_from source (insert g.source g canonical) state
    ∙ ap (λ d. newest source d state) (lookup-insert g.source source g canonical)

newest_absent :
    (source : String) (d : Option FileState) (state : State)
    → ((h : FileState) → Has h state → h.source ≢ source)
    → newest source d state ≡ d
unfolding newest
newest_absent source d [] absent = refl
newest_absent source d ((stream, g) ∷ state) absent =
    elim (Bool-cases (string_eq.beq g.source source)) [
      | inl same ↦ absurd (absent g (inl refl) ((string_eq.beq_iff g.source source).0 same))
      | inr other ↦ rw other (newest_absent source d state (λ h m. absent h (inr m)))
    ]

newest_found :
    (fs : FileState) (state : State) (d : Option FileState)
    → IsConflictFree state
    → Has fs state
    → newest fs.source d state ≡ some fs
unfolding newest
newest_found fs [] d free m = elim m [ ]
newest_found fs ((stream, g) ∷ state) d (apart, free) (inl e) =
    subst (λ (h : FileState). newest h.source d ((stream, g) ∷ state) ≡ some h) e
      (rw (beq_refl g.source) (newest_absent g.source (some g) state apart))
newest_found fs ((stream, g) ∷ state) d (apart, free) (inr m) =
    newest_found fs state (if string_eq.beq g.source fs.source then some g else d) free m

newest_inverse :
    (source : String) (d : Option FileState) (state : State) (fs : FileState)
    → newest source d state ≡ some fs
    → (d ≡ some fs) ⊎ (Has fs state × (fs.source ≡ source))
unfolding newest
newest_inverse source d [] fs e = inl e
newest_inverse source d ((stream, g) ∷ state) fs e =
    elim (newest_inverse source (if string_eq.beq g.source source then some g else d) state fs e) [
      | inr (m, p) ↦ inr (inr m, p)
      | inl p ↦ elim (Bool-cases (string_eq.beq g.source source)) [
        | inl same ↦
            let q : g ≡ fs = cc (rw same at p) in
            inr (
              inl q,
              ap (λ (h : FileState). h.source) (sym q) ∙ (string_eq.beq_iff g.source source).0 same,
            )
        | inr other ↦ inl (rw other at p)
      ]
    ]

-- If no two streams share a file name, the registry file holds the state of every stream under its
-- file name, and nothing but such states.
pub lookup-to_canonical :
    (state : State) (fs : FileState)
    → IsConflictFree state
    → (Has fs state → lookup fs.source (to_canonical state) ≡ some fs)
      × ((source : String)
          → lookup source (to_canonical state) ≡ some fs
          → Has fs state × (fs.source ≡ source))
unfolding to_canonical lookup
lookup-to_canonical state fs free = (
  λ m. from_newest fs.source ∙ newest_found fs state none free m,
  λ source e. elim (newest_inverse source none state fs (sym (from_newest source) ∙ e)) [
    | inl absent ↦ cc
    | inr found ↦ found
  ],
)
  where
    from_newest : (source : String) → lookup source (to_canonical state) ≡ newest source none state
    from_newest source = lookup-to_canonical_from source [] state
