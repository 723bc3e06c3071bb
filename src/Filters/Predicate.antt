-- ===== src/Filters/Predicate.antt =====
-- What a filter means, as a template: the column and the operator are text, every operand is a value
-- to bind (src/server/db/sql/filters.ts).
use database_admin.Common.{◌≡◌, ◌⊎◌, none, some, List, [], ◌∷◌, ◌++◌, Text, codes, ok}
use database_admin.Lexer.Rules.{EngineKind}
use database_admin.Quote.{LiteralValue, quote_ident, quote_literal}
use database_admin.Params.Template.{Piece, text, slot, glue}
use database_admin.Filters.{FilterOperator, ColumnFilter, escape_like_pattern}

-- Values to bind, one template for each.
abbrev pub slots : List Text → List (List (Piece Text))
slots [] = []
slots (v ∷ vs) = (slot v ∷ []) ∷ slots vs

abbrev Pieces : Type 0
Pieces = List (Piece Text)

module _ (engine : EngineKind) (f : ColumnFilter) (col : Text) where
  -- `col sign value`
  abbrev pub Compares : Text → Pieces → Type 0
  Compares sign ps =
      (v : Text) × (f.value ≡ some v)
      × (ps ≡ text col ∷ text (codes " ") ∷ text sign ∷ text (codes " ") ∷ slot v ∷ [])

  -- `col BETWEEN value AND value2`
  abbrev pub IsBetween : Pieces → Type 0
  IsBetween ps =
      (lo hi : Text) × (f.value ≡ some lo)
      × (f.value2 ≡ some hi)
      × (ps ≡ text col ∷ text (codes " BETWEEN ") ∷ slot lo ∷ text (codes " AND ") ∷ slot hi ∷ [])

  -- `col IN (values)`, which no row satisfies where there is no value.
  abbrev pub in_pieces : List Text → Pieces
  in_pieces [] = text (codes "1 = 0") ∷ []
  in_pieces (v ∷ vs) =
      text col
      ∷ text (codes " IN (")
      ∷ (glue (codes ", ") (slots (v ∷ vs)) ++ text (codes ")") ∷ [])

  abbrev pub IsMember : Pieces → Type 0
  IsMember ps =
      (vs : List Text) × (ps ≡ in_pieces vs)
      × ((f.values ≡ some vs)
          ⊎ (((f.values ≡ none) × (f.value ≡ none) × (vs ≡ []))
              ⊎ ((v : Text) × (f.values ≡ none) × (f.value ≡ some v) × (vs ≡ v ∷ []))))

  -- `col LIKE value ESCAPE '\\'`, the value escaped and with a percent sign where the operator has one.
  abbrev pub IsLike : (Text → Text) → Pieces → Type 0
  IsLike pattern ps =
      (v escape : Text) × (f.value ≡ some v)
      × (quote_literal (LiteralValue.string (codes "\\")) engine ≡ ok escape)
      × (ps
          ≡ text col
            ∷ text (codes " LIKE ")
            ∷ slot (pattern (escape_like_pattern v))
            ∷ text (codes " ESCAPE ")
            ∷ text escape
            ∷ [])

  abbrev pub ByOperator : FilterOperator → Pieces → Type 0
  ByOperator FilterOperator.is_null ps = ps ≡ text col ∷ text (codes " IS NULL") ∷ []
  ByOperator FilterOperator.is_not_null ps = ps ≡ text col ∷ text (codes " IS NOT NULL") ∷ []
  ByOperator FilterOperator.between ps = IsBetween ps
  ByOperator FilterOperator.«in» ps = IsMember ps
  ByOperator FilterOperator.contains ps = IsLike (λ raw. codes "%" ++ (raw ++ codes "%")) ps
  ByOperator FilterOperator.starts_with ps = IsLike (λ raw. raw ++ codes "%") ps
  ByOperator FilterOperator.ends_with ps = IsLike (λ raw. codes "%" ++ raw) ps
  ByOperator FilterOperator.eq ps = Compares (codes "=") ps
  ByOperator FilterOperator.ne ps = Compares (codes "<>") ps
  ByOperator FilterOperator.lt ps = Compares (codes "<") ps
  ByOperator FilterOperator.lte ps = Compares (codes "<=") ps
  ByOperator FilterOperator.gt ps = Compares (codes ">") ps
  ByOperator FilterOperator.gte ps = Compares (codes ">=") ps

-- The predicate of a filter on its quoted column.
abbrev pub IsPredicate : EngineKind → ColumnFilter → Pieces → Type 0
IsPredicate engine f ps =
    (col : Text) × (quote_ident f.column engine ≡ ok col) × ByOperator engine f col f.op ps
