-- ===== src/Personal/Search/Examples.antt =====
-- The searches on concrete statements.
use civic_soda_quack.Prelude.{◌≡◌, refl, ◌↔◌, true, false}
use civic_soda_quack.Personal.{bytes}
use civic_soda_quack.Personal.Search.{
  word_boundary, contains_word, is_ident_byte, calls, index, is_call,
}
use civic_soda_quack.Personal.Search.Occurs.{Occurs}
use civic_soda_quack.Personal.Search.Exact.{contains_word_iff}

not_called : calls (bytes "select * fromread_csv( x )") (bytes "read_csv") ≡ false
unfolding calls index is_call
not_called = refl

called : calls (bytes "select * from read_csv( x )") (bytes "read_csv") ≡ true
unfolding calls index is_call
called = refl

contains_word_iff_example :
    contains_word (bytes "offset set 1") (bytes "set") ≡ true
    ↔ Occurs word_boundary (bytes "set") (bytes "offset set 1")
unfolding is_ident_byte
contains_word_iff_example = contains_word_iff b's' (bytes "et") (bytes "offset set 1") refl
