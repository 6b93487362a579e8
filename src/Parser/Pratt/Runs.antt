-- ===== src/Parser/Pratt/Runs.antt =====
-- What a run of the expression parser of src/parser.c promises.
use kavak.Base.{ℕ, suc, ◌≡◌, refl, Bool, true, false, Option, none, some, if◌then◌else◌, arith}
use kavak.Parser.{Parser}
use kavak.Parser.Cursor.{IsParser}
use kavak.Parser.Nodes.{Node, Parsing}
use kavak.Parser.Atoms.{Run, and_then}
use kavak.Parser.Pratt.Kept.{At, At-lower, Parsed}

-- A run that ends, with what it promises.
abbrev pub Returns : Run → (Option Node → Parsing → Type 0) → Type 0
Returns none P = ⊥
Returns (some (n, s)) P = P n s

pub and_then-Returns :
    (P Q : Option Node → Parsing → Type 0) (f : Option Node → Parsing → Run) (r : Run)
    → Returns r P
    → ((n : Option Node) (s : Parsing) → P n s → Returns (f n s) Q)
    → Returns (and_then r f) Q
unfolding and_then
and_then-Returns P Q f none h rest = h
and_then-Returns P Q f (some (n, s)) h rest = rest n s h

pub if-Returns :
    (P : Option Node → Parsing → Type 0) (b : Bool) (x y : Run)
    → (b ≡ true → Returns x P)
    → (b ≡ false → Returns y P)
    → Returns (if b then x else y) P
if-Returns P true x y hx hy = hx refl
if-Returns P false x y hx hy = hy refl

-- A parser of expressions that does so at the depth `depth`.
abbrev pub Parses : ℕ → (Parsing → ℕ → Run) → Type 0
Parses depth parse =
    (s : Parsing) (min_prec : ℕ)
    → IsParser s.parser
    → s.parser.expr_depth ≡ depth
    → Returns (parse s min_prec) (Parsed s.parser)

-- A hook for atoms that keeps what the parser keeps, and takes a token where it gives a node.
abbrev pub Primary : Option (Parsing → Option Node × Parsing) → Type 0
Primary none = Unit
Primary (some hook) = (s : Parsing) → IsParser s.parser → Parsed s.parser (hook s).0 (hook s).1

pub Parsed-moved :
    (q : Parser) (n : Option Node) (s : Parsing)
    → At q.tokens q.expr_depth (suc q.pos) s.parser
    → Parsed q n s
Parsed-moved q n s a = record {
  kept = At-lower q.pos s.parser (omega arith) a;
  moved = λ _ _. omega (arith, a.low_le);
}
