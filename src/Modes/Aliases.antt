-- ===== src/Modes/Aliases.antt =====
-- The names of attached portals: AliasFor, UniqueAliases and Expand of internal/modes/modes.go. What
-- filepath.Base and the regular expression do is `Names`.
use civic_soda_quack.Prelude.{
  ℕ, ◌+◌, String, str_append, Bool, false, ◌&&◌, none, some, List, [], ◌∷◌, map, Result, ok, err,
  ◌>>=◌, str_eq, if◌then◌else◌, length, leb,
}
use civic_soda_quack.Prelude.Int.{pos}
use civic_soda_quack.Prelude.Maps.{get, put}
use civic_soda_quack.Prelude.Texts.{join}
use civic_soda_quack.Personal.{bytes}
use civic_soda_quack.Modes.{Strings}
use civic_soda_quack.Modes.Concepts.{contains_text}

-- filepath.Base, strings.TrimSuffix, nonIdent.ReplaceAllString with an underscore, strings.Trim of
-- underscores.
pub record Names : Type 0 where
  pub base : String → String
  pub trim_suffix : String → String → String
  pub only_ident : String → String
  pub trim_underscores : String → String

abbrev pub starts_with_digit : List ℕ → Bool
starts_with_digit [] = false
starts_with_digit (c ∷ cs) = leb b'0' c && leb c b'9'

module _ (st : Strings) (nms : Names) where
  abbrev pub named : String → String
  named base =
      if str_eq base ""
      then "portal"
      else if starts_with_digit (bytes base)
      then st.lower (str_append "p_" base)
      else st.lower base

  -- `AliasFor`
  pub alias_for : String → String
  alias_for path =
      named (nms.trim_underscores (nms.only_ident (nms.trim_suffix (nms.base path) ".duckdb")))

  -- The loop of `UniqueAliases`, over the derived aliases.
  unfoldable pub unique_from : List (String × ℕ) → List String → List String
  unique_from seen [] = []
  unique_from seen (a ∷ rest) = elim (get a seen) [
    | none ↦ a ∷ unique_from (put a 1 seen) rest
    | some n ↦
        str_append a (str_append "_" (st.number (pos (n + 1))))
        ∷ unique_from (put a (n + 1) seen) rest
  ]

  -- `UniqueAliases`
  unfoldable pub unique_aliases : List String → List String
  unfolding unique_from alias_for
  unique_aliases paths = unique_from [] (map alias_for paths)

module _ (st : Strings) where
  -- `unionAll`
  pub union_all : List String → String → String
  union_all aliases relation = str_append "(" (
      str_append
        (join " UNION ALL " (
          map
            (λ a. str_append "SELECT '" (
              str_append a
                (str_append "' AS portal, * FROM " (str_append a (str_append "." relation)))))
            aliases))
        ")")

  abbrev pub with_portal : String → List String → Result String String
  with_portal sql [] = ok sql
  with_portal sql (a ∷ []) =
      ok (if contains_text st sql "{{P}}" then st.replace_all sql "{{P}}" a else sql)
  with_portal sql (a ∷ b ∷ rest) =
      if contains_text st sql "{{P}}"
      then err (
          str_append "this query targets a single portal but "
            (str_append (st.number (pos (length (a ∷ b ∷ rest)))) " were attached"))
      else ok sql

  abbrev pub with_token : String → String → String → String
  with_token token text sql =
      if contains_text st sql token then st.replace_all sql token text else sql

  -- `Expand`
  pub expand : String → List String → Result String String
  unfolding union_all
  expand sql [] = err "no portals attached"
  expand sql (a ∷ rest) = with_portal sql (a ∷ rest) >>= λ s. ok (
      with_token "{{ALIASES}}" (join ", " (map (λ x. str_append "'" (str_append x "'")) (a ∷ rest)))
        (with_token "{{SYNCRUNS}}" (union_all (a ∷ rest) "_csq.sync_runs")
          (with_token "{{CATALOG}}" (union_all (a ∷ rest) "_csq.catalog") s)))
