-- ===== src/Parser/Pratt/Calls/Ends.antt =====
-- `kavak_parser_parse_delimited` and `kavak_parser_parse_call` of src/parser.c end, and count their items.
use kavak.Base.{
  ℕ, zero, suc, ◌+◌, ◌-◌, ◌≤◌, ◌<◌, ◌≡◌, refl, ap, ◌∙◌, Bool, true, false, not, Option, none, some,
  if◌then◌else◌, arith, List, length, add32,
}
use kavak.Token.{Token}
use kavak.Token.Kind
use kavak.Parser.{Parser, token_count, step, check_text, eat_text, expect_text, progressed}
use kavak.Parser.Nodes.{Node, Children, node, nil, cons, snoc, head_of, Parsing, Env}
use kavak.Parser.Pratt.{parse_expression}
use kavak.Parser.Atoms.{Run}
use kavak.Parser.Pratt.Kept.{
  At, At-lower, At-trans, step_on-At, Eats, took, stayed, eat_text-Eats, expect_text-At, Parsed,
}
use kavak.Parser.Pratt.Runs.{Returns, Primary}
use kavak.Parser.Pratt.Turns.{Postfix}
use kavak.Parser.Pratt.Total.{parse_expression-Parsed}
use kavak.Parser.Pratt.Calls.{
  char_text, Items, with_child, Item, stop, next, add_item, after_sep, after_item, item_of,
  then_items, items_loop, close_items,
}

-- the number of children
abbrev pub size : Children → ℕ
size nil = 0
size (cons n ns) = suc (size ns)

abbrev pub child_count : Node → ℕ
child_count (node head children) = size children

size-snoc : (children : Children) (n : Node) → size (snoc children n) ≡ suc (size children)
size-snoc nil n = refl
size-snoc (cons m ms) n = ap suc (size-snoc ms n)

-- A node with `items.count` children more than `base`, otherwise the same, and a parser that `q` has
-- become; there are at most `slack` items more than tokens.
pub record Listed (base : Node) (q : Parser) (slack : ℕ) (items : Items) : Type 0 where
  pub kept : At q.tokens q.expr_depth q.pos items.state.parser
  pub same_head : head_of items.into ≡ head_of base
  pub counted : child_count items.into ≡ child_count base + items.count
  pub count_le : items.count + q.pos ≤ items.state.parser.pos + slack

abbrev pub Gives : Option Items → (Items → Type 0) → Type 0
Gives none P = ⊥
Gives (some items) P = P items

-- A turn that goes on has moved.
abbrev Continues : Node → Parser → ℕ → Item → Type 0
Continues base q from (stop items) = Listed base q 1 items
Continues base q from (next items) = Listed base q 0 items × (from < items.state.parser.pos)

with_child_head : (n child : Node) → head_of (with_child n child) ≡ head_of n
with_child_head (node head children) child = refl

child_count-with_child : (n child : Node) → child_count (with_child n child) ≡ suc (child_count n)
child_count-with_child (node head children) child = size-snoc children child

add_item-Listed :
    (base : Node) (q : Parser) (items : Items) (n : Option Node) (s : Parsing)
    → Listed base q 0 items
    → At items.state.parser.tokens items.state.parser.expr_depth items.state.parser.pos s.parser
    → Listed base q 1 (add_item items n s)
add_item-Listed base q items none s l a = record {
  kept = At-trans items.state.parser s.parser l.kept a;
  same_head = l.same_head;
  counted = l.counted;
  count_le = omega (arith, l.count_le, a.low_le);
}
add_item-Listed base q items (some child) s l a =
    let more : add32 items.count 1 ≡ items.count + 1 =
      omega (arith, l.count_le, l.kept.valid.pos_lt, l.kept.valid.count_le) in
    record {
      kept = At-trans items.state.parser s.parser l.kept a;
      same_head = with_child_head items.into child ∙ l.same_head;
      counted = omega (arith, child_count-with_child items.into child, l.counted, more);
      count_le = omega (arith, l.count_le, a.low_le, more);
    }

moved_to :
    (base : Node) (q : Parser) (slack lesser : ℕ) (items : Items) (p : Parser)
    → Listed base q slack items
    → At items.state.parser.tokens items.state.parser.expr_depth items.state.parser.pos p
    → items.count + q.pos ≤ p.pos + lesser
    → Listed base q lesser (record items { state = record items.state { parser = p } })
moved_to base q slack lesser items p l a le = record {
  kept = At-trans items.state.parser p l.kept a;
  same_head = l.same_head;
  counted = l.counted;
  count_le = le;
}

if-Continues :
    (base : Node) (q : Parser) (from : ℕ) (b : Bool) (t u : Item)
    → (b ≡ true → Continues base q from t)
    → (b ≡ false → Continues base q from u)
    → Continues base q from (if b then t else u)
if-Continues base q from true t u ht hu = ht refl
if-Continues base q from false t u ht hu = hu refl

after_sep-Continues :
    (base : Node) (q : Parser) (from close : ℕ) (items : Items) (r : Option Token × Parser)
    → Eats items.state.parser r
    → Listed base q 1 items
    → from < items.state.parser.pos
    → Continues base q from (after_sep close items r)
unfolding after_sep
after_sep-Continues base q from close items r (stayed e) l moved = rw e l
after_sep-Continues base q from close items r (took t e on) l moved =
    let p = items.state.parser in
    let a = step_on-At p l.kept.valid on in
    let b = At-lower p.pos (step p) (omega arith) a in
    rw e (
      if-Continues base q from (check_text (step p) Kind.punct (char_text close)) _ _
        (λ _. moved_to base q 1 1 items (step p) l b (omega (arith, l.count_le, b.low_le)))
        (λ _. (
          moved_to base q 1 0 items (step p) l b (omega (arith, l.count_le, a.low_le)),
          omega (arith, moved, a.low_le),
        )))

after_item-Continues :
    (base : Node) (q : Parser) (sep close from : ℕ) (items : Items)
    → Listed base q 1 items
    → Continues base q from (after_item sep close from items)
unfolding after_item
after_item-Continues base q sep close from items l =
    if-Continues base q from (not (progressed items.state.parser from)) _ _ (λ _. l)
      (λ moved.
        after_sep-Continues base q from close items
          (eat_text items.state.parser Kind.punct (char_text sep))
          (eat_text-Eats items.state.parser Kind.punct (char_text sep) l.kept.valid refl) l
          (ground (arith, moved)))

then_items-Gives :
    (base : Node) (q : Parser) (from : ℕ) (f : Items → Option Items) (item : Item)
    → Continues base q from item
    → ((items : Items)
        → Listed base q 0 items
        → from < items.state.parser.pos
        → Gives (f items) (Listed base q 1))
    → Gives (then_items f (some item)) (Listed base q 1)
then_items-Gives base q from f (stop items) h rest = h
then_items-Gives base q from f (next items) h rest = rest items h.0 h.1

-- a turn, whatever its expression was
turn-Gives :
    (base : Node) (q : Parser) (sep close : ℕ) (items : Items) (f : Items → Option Items) (r : Run)
    → Listed base q 0 items
    → Returns r (Parsed items.state.parser)
    → ((later : Items)
        → Listed base q 0 later
        → items.state.parser.pos < later.state.parser.pos
        → Gives (f later) (Listed base q 1))
    → Gives (then_items f (item_of sep close items r)) (Listed base q 1)
unfolding item_of
turn-Gives base q sep close items f none l h rest = h
turn-Gives base q sep close items f (some (n, s)) l h rest =
    then_items-Gives base q items.state.parser.pos f
      (after_item sep close items.state.parser.pos (add_item items n s))
      (after_item-Continues base q sep close items.state.parser.pos (add_item items n s)
        (add_item-Listed base q items n s l h.kept))
      rest

pub closed-Gives :
    (env : Env) (base : Node) (q : Parser) (close : ℕ) (o : Option Items)
    → Gives o (Listed base q 1)
    → Gives (close_items env close o) (Listed base q 1)
unfolding close_items
closed-Gives env base q close none h = h
closed-Gives env base q close (some items) h =
    let p = items.state.parser in
    let r =
      expect_text env.mem p Kind.punct (char_text close) (some "expected closing delimiter") in
    let a =
      expect_text-At env.mem p Kind.punct (char_text close) (some "expected closing delimiter")
        h.kept.valid refl in
    moved_to base q 1 1 items r.1 h a (omega (arith, h.count_le, a.low_le))

module _ (env : Env) (primary : Primary env.parse_primary)
    (postfix : Postfix env.parse_postfix) where
  pub items_loop-Gives :
      (base : Node) (q : Parser) (sep close fuel : ℕ) (items : Items)
      → Listed base q 0 items
      → token_count q - items.state.parser.pos < fuel
      → Gives (items_loop env sep close fuel items) (Listed base q 1)
  unfolding items_loop
  items_loop-Gives base q sep close zero items l enough = absurd (omega (arith, enough))
  items_loop-Gives base q sep close (suc fuel) items l enough =
      turn-Gives base q sep close items (items_loop env sep close fuel)
        (parse_expression env items.state 0) l
        (parse_expression-Parsed env primary postfix items.state 0 l.kept.valid)
        (λ later h moved. items_loop-Gives base q sep close fuel later h (
          omega (
            arith,
            enough,
            moved,
            h.kept.valid.pos_lt,
            ap (λ (ts : List Token). length ts) h.kept.same_tokens,
          )))
