-- ===== src/Mcpserver/Quotes/Examples.antt =====
-- A path with a quote in it.
use civic_soda_quack.Prelude.{◌≡◌, refl, some, ◌∷◌, ◌++◌}
use civic_soda_quack.Personal.{bytes}
use civic_soda_quack.Mcpserver.Quotes.{escape_sql_string}
use civic_soda_quack.Mcpserver.Quotes.Reads.{read_literal, read_literal-escape_sql_string}

escaped : escape_sql_string (bytes "o'hare.db") ≡ bytes "o''hare.db"
unfolding escape_sql_string
escaped = refl

read_literal-escape_sql_string_example :
    read_literal (escape_sql_string (bytes "o'hare.db") ++ (39 ∷ bytes " AS a"))
    ≡ some (bytes "o'hare.db", bytes " AS a")
read_literal-escape_sql_string_example =
    read_literal-escape_sql_string (bytes "o'hare.db") (bytes " AS a") refl
