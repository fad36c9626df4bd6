-- ===== src/Personal/Examples.antt =====
-- The searches and the guard on concrete statements.
use civic_soda_quack.Prelude.{ℕ, ◌≡◌, refl, ◌↔◌, List, ok}
use civic_soda_quack.Personal.{bytes}
use civic_soda_quack.Personal.Strip.{strip}
use civic_soda_quack.Personal.Strip.Joins.{strip-comment}
use civic_soda_quack.Personal.Guard.{check_read_only, body_of}
use civic_soda_quack.Personal.Guard.Admits.{ReadsOnly, check_read_only_iff}

-- A denied function behind a comment is no call of it any more.
joined : strip (bytes "select * from/**/read_csv('f')") ≡ ok (bytes "select * fromread_csv( x )")
unfolding strip
joined = refl

check_read_only_iff_example :
    check_read_only (bytes "with a as (select 1) select * from a;") ≡ ok tt ↔ (
      (t : List ℕ) × (strip (bytes "with a as (select 1) select * from a;") ≡ ok t)
      × ReadsOnly (body_of t))
check_read_only_iff_example = check_read_only_iff (bytes "with a as (select 1) select * from a;")

strip-comment_example :
    strip (bytes "select * from/*all of it*/read_csv('f')")
    ≡ strip (bytes "select * fromread_csv('f')")
strip-comment_example =
    strip-comment (bytes "select * from") (bytes "all of it") (bytes "read_csv('f')") refl refl
