-- ===== src/Parser/Nodes.antt =====
-- The nodes that the expression parser of src/parser.c makes, from an arena of src/arena.c. A node is
-- the tree of what it holds: each is new when it is linked, and is linked once.
use Prim.Native.String.{String}
use kavak.Base.{
  ℕ, Bool, true, false, List, [], ◌∷◌, Option, none, some, leb, if◌then◌else◌, get_elem?,
}
use kavak.Span.{Span}
use kavak.Arena.{Arena, arena_alloc}
use kavak.Parser.{Parser, token_count, parser_diag, peek, span_of, step}
use kavak.Parser.Operators.{Operator, finish_span}

-- `KavakASTKind`: the kinds that the expression parser makes
pub data AstKind : Type 0 where
  ast_error ast_ident ast_literal ast_unary ast_binary ast_group ast_selector ast_call user_kind :
      AstKind

-- `KavakASTPayload`: the member that was written last
pub data Payload : Type 0 where
  -- first_token, last_token
  range : ℕ → ℕ → Payload
  -- token_index, literal_kind
  literal : ℕ → ℕ → Payload
  -- token_index
  ident : ℕ → Payload
  -- op_token, op_id
  op : ℕ → ℕ → Payload
  -- a
  user : ℕ → Payload

-- `KavakASTNode` without its links and its type; `flagged` is `KAVAK_AST_FLAG_ERROR`
pub record Head : Type 0 where
  pub kind : AstKind
  pub flagged : Bool
  pub span : Span
  pub payload : Payload

-- a node with its children in order
mutual
  pub data Node : Type 0 where
    node : Head → Children → Node

  pub data Children : Type 0 where
    nil : Children
    cons : Node → Children → Children

abbrev pub head_of : Node → Head
head_of (node head children) = head

-- `rhs ? rhs->span : KAVAK_SPAN_NONE`
abbrev pub span_of_node : Option Node → Span
span_of_node none = span_of none
span_of_node (some n) = (head_of n).span

-- `kavak_ast_append_child`, which does nothing where the child is NULL
abbrev pub snoc : Children → Node → Children
snoc nil n = cons n nil
snoc (cons m ms) n = cons m (snoc ms n)

abbrev pub append : Children → Option Node → Children
append children none = children
append children (some n) = snoc children n

abbrev pub spans_of : Children → List Span
spans_of nil = []
spans_of (cons n ns) = (head_of n).span ∷ spans_of ns

-- the parser with its arena
pub record Parsing : Type 0 where
  pub parser : Parser
  pub arena : Arena

-- `KavakParserConfig`, with the allocator: the hooks of the language may use the parser and give a node
pub record Env : Type 0 where
  pub mem : ℕ → Bool
  pub calloc : ℕ → Option ℕ
  pub operators : List Operator
  pub parse_primary : Option (Parsing → Option Node × Parsing)
  pub parse_postfix : Option (Parsing → Node → Option Node × Parsing)

-- `parser_advance`, where its result is ignored
abbrev pub advanced : Parsing → Parsing
advanced s = record s { parser = step s.parser }

-- `parser_diag` at a token or node
unfoldable pub diag : Env → Parsing → Span → String → Parsing
diag env s span message = record s { parser = parser_diag env.mem s.parser span (some message) }

-- `sizeof(KavakASTNode)`
abbrev pub node_size : ℕ
node_size = 64

-- a node from the arena, with its first fields
abbrev pub place_node : Head → Option ℕ → Option Node
place_node head none = none
place_node head (some address) = some (node head nil)

unfoldable pub alloc_node : Env → Parsing → Head → Option Node × Parsing
alloc_node env s head =
    let r = arena_alloc env.calloc s.arena node_size in
    (place_node head r.0, record s { arena = r.1 })

-- `parser_make_node_at`
unfoldable pub make_node_at : Env → Parsing → AstKind → ℕ → Option Node × Parsing
unfolding alloc_node
make_node_at env s kind first_token = alloc_node env s (record {
  kind = kind;
  flagged = false;
  span = span_of (get_elem? s.parser.tokens first_token);
  payload = range first_token first_token;
})

-- `kavak_parser_make_node`
abbrev pub make_node : Env → Parsing → AstKind → Option Node × Parsing
make_node env s kind = make_node_at env s kind s.parser.pos

-- `make_token_node`
unfoldable pub make_token_node : Env → Parsing → AstKind → ℕ → Payload → Option Node × Parsing
unfolding alloc_node
make_token_node env s kind token_index payload =
    if leb (token_count s.parser) token_index
    then (none, s)
    else alloc_node env s (record {
      kind = kind;
      flagged = false;
      span = span_of (get_elem? s.parser.tokens token_index);
      payload = payload;
    })

-- `kavak_parser_finish_node`
unfoldable pub finish_node : Parser → Node → Node
finish_node p (node head children) =
    node (record head { span = finish_span p head.span (spans_of children) }) children

abbrev pub flag : Node → Node
flag (node head children) = node (record head { flagged = true }) children

-- `make_error_node`
abbrev pub error_at : Env → String → Option Node × Parsing → Option Node × Parsing
error_at env message (none, s) = (none, s)
error_at env message (some n, s) =
    let after = advanced (diag env s (span_of (peek s.parser)) message) in
    (some (finish_node after.parser (flag n)), after)

unfoldable pub make_error_node : Env → Parsing → String → Option Node × Parsing
unfolding make_node_at finish_node
make_error_node env s message = error_at env message (make_node env s ast_error)
