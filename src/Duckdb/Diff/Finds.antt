-- ===== src/Duckdb/Diff/Finds.antt =====
-- What the list of differences says of one column.
use mathlib.Core.Path.{ap₂}
use mathlib.Core.List.{append-nil}
use civic_soda_quack.Prelude.{
  ◌≡◌, refl, ◌∙◌, inl, inr, String, Option, none, some, List, [], ◌∷◌, ◌++◌, str_eq, eq_iff, arith,
  if◌then◌else◌, Bool-cases,
}
use civic_soda_quack.Prelude.Maps.{get, DistinctKeys, get-cons}
use civic_soda_quack.Duckdb.Diff.{
  Change, added, removed, retyped, SchemaDiff, types_equivalent, want_diff, want_diffs, have_diff,
  have_diffs,
}

-- All that is reported for a column.
unfoldable pub changes_for : String → List SchemaDiff → List Change
changes_for name [] = []
changes_for name (d ∷ ds) =
    let rest = changes_for name ds in if str_eq d.column name then d.change ∷ rest else rest

-- One change, or none.
abbrev pub list_of : Option Change → List Change
list_of none = []
list_of (some c) = c ∷ []

pub changes_for-append :
    (name : String) (xs ys : List SchemaDiff)
    → changes_for name (xs ++ ys) ≡ changes_for name xs ++ changes_for name ys
unfolding changes_for
changes_for-append name [] ys = refl
changes_for-append name (x ∷ xs) ys = ground (arith, changes_for-append name xs ys)

-- What a wanted column makes of the live one.
abbrev pub wanted_change : String → Option String → Option Change
wanted_change want none = some (added want)
wanted_change want (some have) =
    if types_equivalent want have then none else some (retyped want have)

abbrev pub bind_change : Option String → (String → Option Change) → Option Change
bind_change none f = none
bind_change (some t) f = f t

changes_for-want_diff :
    (name j want : String) (o : Option String)
    → changes_for name (want_diff j want o)
      ≡ (if str_eq j name then list_of (wanted_change want o) else [])
unfolding changes_for want_diff
changes_for-want_diff name j want none = refl
changes_for-want_diff name j want (some have) = ground arith

pub changes_for-want_diffs :
    (name : String) (have want : List (String × String))
    → DistinctKeys want
    → changes_for name (want_diffs have want)
      ≡ list_of (bind_change (get name want) (λ t. wanted_change t (get name have)))
unfolding want_diffs
changes_for-want_diffs name have [] h = unfold changes_for get in refl
changes_for-want_diffs name have ((j, t) ∷ want) (fresh, h) =
    changes_for-append name (want_diff j t (get j have)) (want_diffs have want)
    ∙ ap₂ ◌++◌ (changes_for-want_diff name j t (get j have))
        (changes_for-want_diffs name have want h)
    ∙ elim (Bool-cases (str_eq j name)) [
      | inl y ↦
          let same : j ≡ name = (eq_iff j name).0 y in
          rw (get-cons name j t want, y, ← same, fresh)
            (append-nil (list_of (wanted_change t (get j have))))
      | inr z ↦ rw (get-cons name j t want, z)
    ]

-- What a live column makes of the wanted one.
abbrev pub live_change : String → Option String → Option Change
live_change have none = some (removed have)
live_change have (some want) = none

changes_for-have_diff :
    (name j have : String) (o : Option String)
    → changes_for name (have_diff j have o)
      ≡ (if str_eq j name then list_of (live_change have o) else [])
unfolding changes_for have_diff
changes_for-have_diff name j have none = refl
changes_for-have_diff name j have (some want) = ground arith

pub changes_for-have_diffs :
    (name : String) (want have : List (String × String))
    → DistinctKeys have
    → changes_for name (have_diffs want have)
      ≡ list_of (bind_change (get name have) (λ t. live_change t (get name want)))
unfolding have_diffs
changes_for-have_diffs name want [] h = unfold changes_for get in refl
changes_for-have_diffs name want ((j, t) ∷ have) (fresh, h) =
    changes_for-append name (have_diff j t (get j want)) (have_diffs want have)
    ∙ ap₂ ◌++◌ (changes_for-have_diff name j t (get j want))
        (changes_for-have_diffs name want have h)
    ∙ elim (Bool-cases (str_eq j name)) [
      | inl y ↦
          let same : j ≡ name = (eq_iff j name).0 y in
          rw (get-cons name j t have, y, ← same, fresh)
            (append-nil (list_of (live_change t (get j want))))
      | inr z ↦ rw (get-cons name j t have, z)
    ]
