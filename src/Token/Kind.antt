-- ===== src/Token/Kind.antt =====
-- `KavakTokenKind` of include/kavak.h: the kernel's token kinds. A language's own start at 256.
use kavak.Base.{ℕ}

abbrev pub invalid : ℕ
invalid = 0

abbrev pub eof : ℕ
eof = 1

abbrev pub ident : ℕ
ident = 2

abbrev pub keyword : ℕ
keyword = 3

abbrev pub int : ℕ
int = 4

abbrev pub float : ℕ
float = 5

abbrev pub string : ℕ
string = 6

abbrev pub char : ℕ
char = 7

abbrev pub op : ℕ
op = 8

abbrev pub punct : ℕ
punct = 9

abbrev pub newline : ℕ
newline = 10

abbrev pub indent : ℕ
indent = 11

abbrev pub dedent : ℕ
dedent = 12

abbrev pub comment : ℕ
comment = 13
