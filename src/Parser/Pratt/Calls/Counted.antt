-- ===== src/Parser/Pratt/Calls/Counted.antt =====
-- What `kavak_parser_parse_delimited` and `kavak_parser_parse_call` of src/parser.c promise.
use kavak.Base.{ℕ, suc, ◌≡◌, refl, Bool, true, false, not, Option, none, some, if◌then◌else◌, arith}
use kavak.Token.{Token}
use kavak.Token.Kind
use kavak.Parser.{Parser, step, check_text, eat_text}
use kavak.Parser.Cursor.{IsParser}
use kavak.Parser.Nodes.{Node, Parsing, Env, ast_call, make_node, make_node_at, alloc_node}
use kavak.Parser.Pratt.{tokens_left}
use kavak.Parser.Pratt.Kept.{
  At, At-self, At-lower, At-trans, step_on-At, Eats, took, stayed, eat_text-Eats, eat_text_taken,
  Parsed,
}
use kavak.Parser.Pratt.Runs.{Returns, Primary, if-Returns}
use kavak.Parser.Pratt.Turns.{Postfix}
use kavak.Parser.Pratt.Calls.{
  char_text, Items, with_child, items_loop, delimited, parse_delimited, finish_call, parse_call,
}
use kavak.Parser.Pratt.Calls.Ends.{Listed, Gives, closed-Gives, items_loop-Gives}

-- at most as many items as tokens that were taken
counted_behind :
    (base : Node) (q : Parser) (o : Option Items)
    → At q.tokens q.expr_depth (suc q.pos) (step q)
    → Gives o (Listed base (step q) 1)
    → Gives o (Listed base q 0)
counted_behind base q none a h = h
counted_behind base q (some items) a h = record {
  kept =
      At-lower q.pos items.state.parser (omega arith)
        (At-trans (step q) items.state.parser a h.kept);
  same_head = h.same_head;
  counted = h.counted;
  count_le = omega (arith, h.count_le, a.low_le);
}

if-Gives :
    (P : Items → Type 0) (b : Bool) (t u : Option Items)
    → Gives t P
    → Gives u P
    → Gives (if b then t else u) P
if-Gives P true t u ht hu = ht
if-Gives P false t u ht hu = hu

module _ (env : Env) (primary : Primary env.parse_primary)
    (postfix : Postfix env.parse_postfix) where
  delimited_taken :
      (s : Parsing) (base : Node) (sep close : ℕ) (t : Token)
      → IsParser (step s.parser)
      → Gives
          (delimited env s base sep close (some t, step s.parser))
          (Listed base (step s.parser) 1)
  unfolding delimited
  delimited_taken s base sep close t v =
      let items : Items = record {
        into = base;
        count = 0;
        state = record s { parser = step s.parser };
      } in
      let begun : Listed base (step s.parser) 0 items = record {
        kept = At-self (step s.parser) v;
        same_head = refl;
        counted = omega arith;
        count_le = omega arith;
      } in
      let also : Listed base (step s.parser) 1 items = record {
        kept = At-self (step s.parser) v;
        same_head = refl;
        counted = omega arith;
        count_le = omega arith;
      } in
      if-Gives (Listed base (step s.parser) 1)
        (check_text (step s.parser) Kind.punct (char_text close)) _ _
        (closed-Gives env base (step s.parser) close (some items) also)
        (closed-Gives env base (step s.parser) close
          (items_loop env sep close (tokens_left items.state) items)
          (items_loop-Gives env primary postfix base (step s.parser) sep close
            (tokens_left items.state) items begun (omega arith)))

  delimited-Listed :
      (s : Parsing) (base : Node) (sep close : ℕ) (r : Option Token × Parser)
      → IsParser s.parser
      → Eats s.parser r
      → Gives (delimited env s base sep close r) (Listed base s.parser 0)
  unfolding delimited
  delimited-Listed s base sep close r v (stayed e) = rw e (record {
    kept = At-self s.parser v;
    same_head = refl;
    counted = omega arith;
    count_le = omega arith;
  })
  delimited-Listed s base sep close r v (took t e on) =
      let a = step_on-At s.parser v on in
      rw e (
        counted_behind base s.parser (delimited env s base sep close (some t, step s.parser)) a
          (delimited_taken s base sep close t a.valid))

  -- On a stream that ends in EOF, with hooks that keep the tokens and the depth and do not go back,
  -- `kavak_parser_parse_delimited` ends with whatever delimiters: the count that it returns is the number
  -- of children that the node has got, at most the number of tokens that were taken, its wrap-around
  -- included; the rest of the node, the tokens and the depth are the same.
  pub parse_delimited-Listed :
      (s : Parsing) (n : Node) (open_ sep close : ℕ)
      → IsParser s.parser
      → Gives (parse_delimited env s n open_ sep close) (Listed n s.parser 0)
  unfolding parse_delimited
  parse_delimited-Listed s n open_ sep close v =
      delimited-Listed s n sep close (eat_text s.parser Kind.punct (char_text open_)) v
        (eat_text-Eats s.parser Kind.punct (char_text open_) v refl)

  finish_call-Parsed :
      (base : Node) (q : Parser) (o : Option Items)
      → At q.tokens q.expr_depth (suc q.pos) (step q)
      → Gives o (Listed base (step q) 1)
      → Returns (finish_call o) (Parsed q)
  unfolding finish_call
  finish_call-Parsed base q none a h = h
  finish_call-Parsed base q (some items) a h = record {
    kept =
        At-lower q.pos items.state.parser (omega arith)
          (At-trans (step q) items.state.parser a h.kept);
    moved = λ _ _. omega (arith, a.low_le, h.kept.low_le);
  }

  call_taken :
      (s : Parsing) (base : Node) (open_ sep close : ℕ)
      → IsParser s.parser
      → check_text s.parser Kind.punct (char_text open_) ≡ true
      → Returns (finish_call (parse_delimited env s base open_ sep close)) (Parsed s.parser)
  unfolding parse_delimited
  call_taken s base open_ sep close v same =
      let taken = eat_text_taken s.parser Kind.punct (char_text open_) v refl same in
      let a = step_on-At s.parser v taken.2 in
      rw (taken.1, parse_delimited)
        (finish_call-Parsed base s.parser
          (delimited env s base sep close (some taken.0, step s.parser)) a
          (delimited_taken s base sep close taken.0 a.valid))

  -- Under the same conditions `kavak_parser_parse_call` ends: it keeps the tokens and the depth, stays
  -- inside the tokens and does not go back, and where it gives a node it has taken a token, so that the
  -- loop of `kavak_parse_expression` accepts it as a trailing form.
  pub parse_call-Parsed :
      (s : Parsing) (callee : Node) (open_ sep close : ℕ)
      → IsParser s.parser
      → Returns (parse_call env s callee open_ sep close) (Parsed s.parser)
  unfolding parse_call make_node_at alloc_node
  parse_call-Parsed s callee open_ sep close v =
      let declined : Parsed s.parser none s = record {
        kept = At-self s.parser v;
        moved = λ g _. absurd (ground (arith, g));
      } in
      let r = make_node env s ast_call in
      if-Returns (Parsed s.parser) (not (check_text s.parser Kind.punct (char_text open_))) _ _
        (λ _. declined)
        (λ here.
          elim (r.0)
            as (λ o.
              Returns
                (elim o [
                  | none ↦ some (none, r.1)
                  | some call ↦
                      finish_call (parse_delimited env r.1 (with_child call callee) open_ sep close)
                ])
                (Parsed s.parser)) [
                  | none ↦ record {
                    kept = At-self s.parser v;
                    moved = λ g _. absurd (ground (arith, g));
                  }
                  | some call ↦
                      call_taken r.1 (with_child call callee) open_ sep close v
                        (ground (arith, here))
                ])
