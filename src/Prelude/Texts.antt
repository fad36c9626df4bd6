-- ===== src/Prelude/Texts.antt =====
-- Lists of texts in which no text stands twice, as Go code keeps them with a set of what it has seen.
use Prim.Native.String.{String, ◌++◌ as str_append}
use mathlib.Core.Path.{◌≡◌, refl, sym}
use mathlib.Core.Logic.{inl, inr}
use mathlib.Core.Bool.{Bool, false, not, ◌&&◌, ◌||◌}
use mathlib.Core.List.{List, [], ◌∷◌, ◌++◌, append-nil}
use native.Mathlib.Omega.{arith}
use text.Mathlib.Text.{◌==◌ as str_eq}
use text.Mathlib.TextEquality.{eq_iff}
use civic_soda_quack.Prelude.Tests.{if◌then◌else◌, Bool-cases}

abbrev pub contains : List String → String → Bool
contains [] s = false
contains (x ∷ xs) s = str_eq x s || contains xs s

-- `strings.Join`
unfoldable pub join : String → List String → String
join sep [] = ""
join sep (s ∷ []) = s
join sep (s ∷ t ∷ ts) = str_append s (str_append sep (join sep (t ∷ ts)))

-- No text stands twice.
abbrev pub NoRepeats : List String → Type 0
NoRepeats [] = Unit
NoRepeats (x ∷ xs) = (contains xs x ≡ false) × NoRepeats xs

pub contains-append :
    (x : String) (xs ys : List String) → contains (xs ++ ys) x ≡ (contains xs x || contains ys x)
contains-append x [] ys = refl
contains-append x (y ∷ xs) ys = ground (arith, contains-append x xs ys)

pub NoRepeats-snoc :
    (x : String) (xs : List String)
    → NoRepeats xs
    → contains xs x ≡ false
    → NoRepeats (xs ++ x ∷ [])
NoRepeats-snoc x [] h k = (refl, tt)
NoRepeats-snoc x (y ∷ xs) h k = (
  ground (arith, contains-append y xs (x ∷ []), eq_iff x y, eq_iff y x),
  NoRepeats-snoc x xs h.1 (ground arith),
)

module _ (trim : String → String) where
  -- A trimmed text at the end, unless it is empty or there.
  pub add_trimmed : String → List String → List String
  add_trimmed s out =
      if str_eq (trim s) "" || contains out (trim s) then out else out ++ trim s ∷ []

  pub add_trimmed-contains :
      (s x : String) (out : List String)
      → contains (add_trimmed s out) x
        ≡ (contains out x || (not (str_eq x "") && str_eq (trim s) x))
  unfolding add_trimmed
  add_trimmed-contains s x out = ground (
    arith,
    contains-append x out (trim s ∷ []),
    eq_iff (trim s) x,
    eq_iff (trim s) "",
    eq_iff x "",
  )

  pub add_trimmed-NoRepeats :
      (s : String) (out : List String) → NoRepeats out → NoRepeats (add_trimmed s out)
  unfolding add_trimmed
  add_trimmed-NoRepeats s out h = elim (Bool-cases (str_eq (trim s) "" || contains out (trim s))) [
    | inl y ↦ rw y h
    | inr z ↦ rw z (NoRepeats-snoc (trim s) out h (ground arith))
  ]

  -- What is there stays in front.
  pub add_trimmed-Extends :
      (s : String) (out : List String) → (new : List String) × (add_trimmed s out ≡ out ++ new)
  unfolding add_trimmed
  add_trimmed-Extends s out = elim (Bool-cases (str_eq (trim s) "" || contains out (trim s))) [
    | inl y ↦ rw y ([], sym (append-nil out))
    | inr z ↦ rw z (trim s ∷ [], refl)
  ]
