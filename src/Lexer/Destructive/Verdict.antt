-- ===== src/Lexer/Destructive/Verdict.antt =====
-- Which statements need the confirm dialog (`isDestructive` of src/server/db/sql/lexer.ts).
use database_admin.Common.{◌≡◌, ◌⊎◌, true, false, List, [], ◌∷◌, All, Text, codes}
use mathlib.Core.List.{Memᴰ}
use database_admin.Lexer.Tokens.{SqlToken, is_word}

-- The first token is this word.
abbrev pub Starts : SqlToken → Text → Type 0
Starts t w = (is_word t.kind ≡ true) × (t.upper ≡ w)

-- A word outside every parenthesis.
abbrev pub IsTopWord : SqlToken → Text → Type 0
IsTopWord t w = (t.depth ≡ 0) × (is_word t.kind ≡ true) × (t.upper ≡ w)

-- The words behind `DROP` for parts of a table that hold no data.
abbrev pub kept_objects : List Text
kept_objects =
    codes "CONSTRAINT"
    ∷ codes "INDEX"
    ∷ codes "KEY"
    ∷ codes "FOREIGN"
    ∷ codes "PRIMARY"
    ∷ codes "UNIQUE"
    ∷ codes "CHECK"
    ∷ codes "DEFAULT"
    ∷ codes "NOT"
    ∷ codes "PARTITION"
    ∷ codes "EXPRESSION"
    ∷ codes "IDENTITY"
    ∷ []

-- What follows a `DROP` is the word COLUMN, nothing, or no word of that list.
abbrev pub LosesData : List SqlToken → Type 0
LosesData [] = Unit {0}
LosesData (t ∷ ts) =
    (t.upper ≡ codes "COLUMN") ⊎ ((is_word t.kind ≡ false) ⊎ (Memᴰ t.upper kept_objects → ⊥))

-- Somewhere outside every parenthesis a `DROP` loses data.
pub data HasDrop : List SqlToken → Type 0 where
  here :
      {t : SqlToken} {ts : List SqlToken}
      → IsTopWord t (codes "DROP")
      → LosesData ts
      → HasDrop (t ∷ ts)
  there : {t : SqlToken} {ts : List SqlToken} → HasDrop ts → HasDrop (t ∷ ts)

-- No word outside every parenthesis is this one.
abbrev pub Lacks : List SqlToken → Text → Type 0
Lacks ts w = All (λ t. IsTopWord t w → ⊥) ts

-- The statements that lose data, by their tokens.
pub data Destroys : List SqlToken → Type 0 where
  drop_any : {t : SqlToken} {ts : List SqlToken} → Starts t (codes "DROP") → Destroys (t ∷ ts)
  truncate_any :
      {t : SqlToken} {ts : List SqlToken} → Starts t (codes "TRUNCATE") → Destroys (t ∷ ts)
  delete_all :
      {t : SqlToken} {ts : List SqlToken}
      → Starts t (codes "DELETE")
      → Lacks (t ∷ ts) (codes "WHERE")
      → Destroys (t ∷ ts)
  update_all :
      {t : SqlToken} {ts : List SqlToken}
      → Starts t (codes "UPDATE")
      → Lacks (t ∷ ts) (codes "WHERE")
      → Destroys (t ∷ ts)
  alter_drop :
      {t : SqlToken} {ts : List SqlToken}
      → Starts t (codes "ALTER")
      → HasDrop ts
      → Destroys (t ∷ ts)
