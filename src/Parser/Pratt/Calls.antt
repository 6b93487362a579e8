-- ===== src/Parser/Pratt/Calls.antt =====
-- Delimited lists and calls of src/parser.c. `none` is a run that the fuel has ended.
pub mod Ends
pub mod Counted
use kavak.Base.{
  ℕ, zero, suc, ◌+◌, ◌==◌, Bool, true, false, not, List, [], ◌∷◌, Option, none, some, if◌then◌else◌,
  add32,
}
use kavak.Token.{Token}
use kavak.Token.Kind
use kavak.Parser.{Parser, check_text, eat_text, expect_text, progressed}
use kavak.Parser.Nodes.{ast_call, Node, node, append, Parsing, Env, make_node, finish_node}
use kavak.Parser.Pratt.{parse_expression, tokens_left}
use kavak.Parser.Atoms.{Run}

-- `{ c, 0 }` up to its terminator
abbrev pub char_text : ℕ → List ℕ
char_text c = if c == 0 then [] else c ∷ []

-- the node with its items so far, their number and the state
pub record Items : Type 0 where
  pub into : Node
  pub count : ℕ
  pub state : Parsing

-- a turn of the loop: it breaks, or goes on
pub data Item : Type 0 where
  stop next : Items → Item

abbrev pub with_child : Node → Node → Node
with_child (node head children) child = node head (append children (some child))

-- `if (item) { kavak_ast_append_child(node, item); ++count; }`
abbrev pub add_item : Items → Option Node → Parsing → Items
add_item items none s = record items { state = s }
add_item items (some item) s = record {
  into = with_child items.into item;
  count = add32 items.count 1;
  state = s;
}

-- behind an item
unfoldable pub after_sep : ℕ → Items → Option Token × Parser → Item
after_sep close items (none, p) = stop (record items { state = record items.state { parser = p } })
after_sep close items (some token, p) =
    let eaten = record items { state = record items.state { parser = p } } in
    if check_text p Kind.punct (char_text close) then stop eaten else next eaten

unfoldable pub after_item : ℕ → ℕ → ℕ → Items → Item
unfolding after_sep
after_item sep close mark items =
    if not (progressed items.state.parser mark)
    then stop items
    else after_sep close items (eat_text items.state.parser Kind.punct (char_text sep))

unfoldable pub item_of : ℕ → ℕ → Items → Run → Option Item
unfolding after_item
item_of sep close items none = none
item_of sep close items (some (item, s)) =
    some (after_item sep close items.state.parser.pos (add_item items item s))

abbrev pub then_items : (Items → Option Items) → Option Item → Option Items
then_items f none = none
then_items f (some (stop items)) = some items
then_items f (some (next items)) = f items

-- the loop
unfoldable pub items_loop : Env → ℕ → ℕ → ℕ → Items → Option Items
unfolding item_of
items_loop env sep close zero items = none
items_loop env sep close (suc fuel) items =
    then_items (items_loop env sep close fuel)
      (item_of sep close items (parse_expression env items.state 0))

-- the closing delimiter
unfoldable pub close_items : Env → ℕ → Option Items → Option Items
close_items env close none = none
close_items env close (some items) =
    let p =
      (expect_text env.mem items.state.parser Kind.punct (char_text close)
        (some "expected closing delimiter")).1 in
    some (record items { state = record items.state { parser = p } })

-- `kavak_parser_parse_delimited`, behind its first token
unfoldable pub delimited : Env → Parsing → Node → ℕ → ℕ → Option Token × Parser → Option Items
unfolding items_loop close_items
delimited env s n sep close (none, p) =
    some (record { into = n; count = 0; state = record s { parser = p } })
delimited env s n sep close (some token, p) =
    let items : Items = record { into = n; count = 0; state = record s { parser = p } } in
    if check_text p Kind.punct (char_text close)
    then close_items env close (some items)
    else close_items env close (items_loop env sep close (tokens_left items.state) items)

-- `kavak_parser_parse_delimited`
unfoldable pub parse_delimited : Env → Parsing → Node → ℕ → ℕ → ℕ → Option Items
unfolding delimited
parse_delimited env s n open_ sep close =
    delimited env s n sep close (eat_text s.parser Kind.punct (char_text open_))

-- `kavak_parser_parse_call`
unfoldable pub finish_call : Option Items → Run
finish_call none = none
finish_call (some items) = some (some (finish_node items.state.parser items.into), items.state)

unfoldable pub parse_call : Env → Parsing → Node → ℕ → ℕ → ℕ → Run
unfolding finish_call parse_delimited
parse_call env s callee open_ sep close =
    if not (check_text s.parser Kind.punct (char_text open_))
    then some (none, s)
    else let r = make_node env s ast_call in
      elim (r.0) [
        | none ↦ some (none, r.1)
        | some call ↦ finish_call (parse_delimited env r.1 (with_child call callee) open_ sep close)
      ]
