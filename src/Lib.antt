-- ===== src/Lib.antt =====
-- Verification of kavak, a C library for building the front end of a language: source text and line
-- table, Unicode, tokens, diagnostics, a bump allocator, a parser toolkit, a sema toolkit and a type
-- toolkit.
--
-- How the parts work together. A `KavakSource` borrows the bytes of a file and finds its lines; the
-- lexer reads code points from it with the UTF-8 decoder and the XID tables and pushes tokens on a
-- `KavakTokenVec`; the parser toolkit walks that vector with a cursor, allocates nodes from a
-- `KavakArena`, and pushes diagnostics, each with a `KavakSpan`, on a `KavakDiagVec`; the sema toolkit
-- binds and looks up names in a chain of scopes and narrows their types inside a branch; the type
-- toolkit compares, relates and unifies the types that the symbols carry.
--
-- Files and the code they are about:
--   Base      numbers, lists, options, `int` scores, and the limits of the machine words
--   Span      include/kavak.h section 16 (spans) and src/span.c
--   Utf8      src/utf8.c: `kavak_utf8_decode` is `utf8_decode`, with an encoder to compare it to
--   Xid       src/unicode_xid.c, both tables in full, and the identifier predicates of src/utf8.c
--   Token     include/kavak.h section 6 and src/token.c
--   Diag      src/diag.c, and `nth_error` of src/kavak.c
--   Source    include/kavak.h section 1 and src/source.c
--   Arena     include/kavak.h section 18 and src/arena.c
--   Intern    include/kavak.h section 18b and src/intern.c: the hash table of interned texts
--   Ast       include/kavak.h section 9 and src/ast.c: the links of the nodes, as a store
--   Lexer     include/kavak.h section 7 and src/lexer.c: cursor and emission, hexadecimal escapes, the
--             scanners for comments, operators, identifiers, numbers and strings with interpolations
--             (Strings), the layout of lines, and `kavak_lex` (Driver)
--   Sema      include/kavak.h section 11 and src/sema.c: scopes, lookup, overloads, narrowing,
--             and name resolution over a tree, whose hooks do not change its shape
--   Parser    include/kavak.h section 8 and src/parser.c: cursor, recovery, checkpoints, operators,
--             nodes as trees, the expression parser (Atoms, Pratt), delimited lists and calls
--   Types     include/kavak.h section 10 and src/type.c: types as pointers into a store, which may
--             contain themselves; equality, assignability, unification, and walks over supertypes
--   Pipeline  the lexer in front of the parser, as `kavak_analyze_bytes` of src/kavak.c has them
-- A definition has the name of its C function without the prefix `kavak_`, except for `kavak_lex`; a
-- record has the fields of its struct. A vector with count and capacity is the list of its items and
-- the capacity. A pointer that may be NULL is an `Option`; a function that returns 0 or -1 returns
-- an `Option` of the state, where `none` is -1 and leaves the state as it was, and a pair of the
-- result and the state where a failure can change it.
--
-- Machine words: `uint32_t` arithmetic keeps its wrap-around (`add32`, `% 4294967296`), and `size_t`
-- is that of an LP64 host, as are the sizes of structs. The allocator of the C library is a
-- parameter: a test `mem` of sizes that succeed, or a function `calloc` to addresses. That its
-- blocks end inside the address space and are disjoint from each other is a hypothesis of the
-- theorem on the arena. Callbacks of a language (scores, visitors, bodies, narrowing hooks) are
-- parameters.
--
-- Fuel: the loops of the line search and of the table search run on the length of their table, which
-- halves at each turn; the doubling loops run on 32 turns, which pass `UINT32_MAX` from 1; error
-- recovery runs on one turn more than there are tokens left, and is shown to end within it; the walk
-- to the last child takes its fuel as an argument; the probes of the intern pool run on one turn for
-- each bucket, and a probe that finds none empty, which the load limit is there to prevent, gives
-- NULL. The loops of the lexer's scanners run on one turn for each byte that is left, and each turn
-- takes a byte at least; those of strings, of interpolations and of `kavak_lex` itself run on one turn
-- more than there are bytes left, and the scanner inside an interpolation on the 64 levels of
-- `KAVAK_MAX_INTERP_DEPTH`; these are shown to be enough. The expression parser recurs on the 512
-- levels of its depth limit, and its loops run on one turn more than there are tokens left; both are
-- shown to be enough. In the type toolkit the depth of a recursion is the code's own limit of 512
-- levels, and its answer at the limit is the code's.
--
-- Not modelled: NULL handles and NULL out parameters, freeing and reallocation as changes of memory,
-- the making, joining, substitution and printing of types, the session and its accessors, formatting and
-- dumping to a file (src/dump.c), the example language, and the scripts that make the Unicode tables.
pub mod Base
pub mod Span
pub mod Utf8
pub mod Xid
pub mod Token
pub mod Diag
pub mod Source
pub mod Arena
pub mod Sema
pub mod Lexer
pub mod Parser
pub mod Ast
pub mod Intern
pub mod Types
pub mod Pipeline
