-- ===== src/Syntax/Lists.antt =====
-- Comma-separated lists: what the attributes rely on from MLIR's parser, and how they are printed.
use lalvm.Base.{◌≤◌, ◌≡◌, Bool, true, false, some, List, [], ◌∷◌}
use lalvm.Base.Lists.{All, length}
use lalvm.Syntax.{Token, comma, Parse}

-- llvm::interleaveComma, before the tokens that follow.
unfoldable pub separated :
    {A : Type 0} → (A → List Token → List Token) → A → List A → List Token → List Token
separated print x [] rest = print x rest
separated print x (y ∷ ys) rest = print x (comma ∷ separated print y ys rest)

-- AsmParser::parseCommaSeparatedList without delimiters.
abbrev pub CommaList : Type 1
CommaList = (A : Type 0) → (List Token → Parse A) → List Token → Parse (List A)

abbrev pub starts_with_comma : List Token → Bool
starts_with_comma (comma ∷ rest) = true
starts_with_comma tokens = false

-- An element is read back before a comma and before the end.
abbrev pub IsReadBack :
    {A : Type 0} → (List Token → Parse A) → (A → List Token → List Token) → List Token → A → Type 0
IsReadBack {A = A} parse print rest x =
    ((tail : List Token) → parse (print x (comma ∷ tail)) ≡ some (x, comma ∷ tail))
    × (parse (print x rest) ≡ some (x, rest))

-- An element is printed before the tokens that follow.
abbrev pub IsPrinter : {A : Type 0} → (A → List Token → List Token) → Type 0
IsPrinter {A = A} print = (x : A) (rest : List Token) → length rest ≤ length (print x rest)

-- The list parser reads elements as long as a comma follows.
abbrev pub IsCommaList : CommaList → Type 1
IsCommaList comma_list =
    (A : Type 0) (parse : List Token → Parse A) (print : A → List Token → List Token) (x : A)
    (xs : List A) (rest : List Token)
    → IsPrinter print
    → All (IsReadBack parse print rest) (x ∷ xs)
    → starts_with_comma rest ≡ false
    → comma_list A parse (separated print x xs rest) ≡ some (x ∷ xs, rest)
