-- ===== src/Parser/Tests.antt =====
-- Runs of the parser toolkit on `( ; ) ;` and EOF.
use kavak.Base.{ℕ, ◌≡◌, refl, true, List, [], ◌∷◌, some, none, arith}
use kavak.Span.{span_make, span_none}
use kavak.Token.{Token}
use kavak.Token.Kind
use kavak.Diag.{Diag, error}
use kavak.Parser.{Parser, peek, previous, at_end, step, advance, check, eat}
use kavak.Parser.Cursor.{IsParser, Eaten, eat-Eaten}
use kavak.Parser.Recovery.{
  RecoveryTarget, Recovered, depth_after, recover_loop, recovery_update_depth,
  recovery_target_matches, recovery_targets_match, kind_in, target_in, recover_to,
  recover_to_targets, recover_to_targets-Recovered,
}
use kavak.Parser.Brackets.{Balanced, group, plain, done, depth_after-Balanced}
use kavak.Parser.Rewind.{checkpoint, rewind, SameItems, rewind-checkpoint}

abbrev sign : ℕ → ℕ → Token
sign at_ c = record { kind = 9; span = span_make at_ 1; v = c }

abbrev end_token : Token
end_token = record { kind = 1; span = span_make 4 0; v = 0 }

abbrev stream : List Token
stream = sign 0 b'(' ∷ sign 1 b';' ∷ sign 2 b')' ∷ sign 3 b';' ∷ end_token ∷ []

abbrev start : Parser
start = record { source = none; tokens = stream; pos = 0; expr_depth = 0; diags = none }

abbrev semicolon : RecoveryTarget
semicolon = record { kind = 9; v = b';'; match_v = true }

start-IsParser : IsParser start
start-IsParser = record {
  last = end_token;
  last_at = refl;
  last_eof = refl;
  count_le = omega arith;
  pos_lt = omega arith;
}

second_semicolon : recover_to_targets start (semicolon ∷ []) ≡ some (record start { pos = 3 })
unfolding recover_to_targets recover_loop at_end peek step recovery_update_depth
    recovery_targets_match target_in
second_semicolon = refl

no_identifier : recover_to start (Kind.ident ∷ []) ≡ some (record start { pos = 4 })
unfolding recover_to recover_loop at_end peek step recovery_update_depth recovery_target_matches
    kind_in
no_identifier = refl

-- EOF is not returned where it is eaten
nothing_eaten :
    eat (record start { tokens = end_token ∷ [] }) Kind.eof
    ≡ (none, record start { tokens = end_token ∷ [] })
unfolding eat check advance previous step at_end peek
nothing_eaten = refl

recover_to_targets-Recovered_example :
    Recovered
      (recovery_targets_match (semicolon ∷ []))
      0
      start
      (recover_to_targets start (semicolon ∷ []))
recover_to_targets-Recovered_example =
    recover_to_targets-Recovered start (semicolon ∷ []) start-IsParser

eat-Eaten_example : Eaten start Kind.punct (eat start Kind.punct)
eat-Eaten_example = eat-Eaten start Kind.punct start-IsParser

abbrev complaint : Diag
complaint = record { severity = error; message = some "expected expression"; span = span_none }

abbrev before : Parser
before = record start { pos = 1; diags = some (record { items = []; cap = 0 }) }

abbrev later : Parser
later = record start { pos = 3; diags = some (record { items = complaint ∷ []; cap = 8 }) }

rewind-checkpoint_example :
    ((rewind later (checkpoint before)).pos ≡ 1)
    × SameItems (rewind later (checkpoint before)).diags (some (record { items = []; cap = 0 }))
    × ((rewind later (checkpoint before)).expr_depth ≡ 0)
rewind-checkpoint_example = rewind-checkpoint before later (omega arith) refl (complaint ∷ [], refl)

-- `( ; )` is one group
group-Balanced : Balanced 1 (sign 0 b'(' ∷ sign 1 b';' ∷ sign 2 b')' ∷ [])
group-Balanced =
    group (sign 0 b'(') (sign 2 b')') refl (plain (sign 1 b';') refl refl done) refl done

depth_after-Balanced_example : depth_after 0 (sign 0 b'(' ∷ sign 1 b';' ∷ sign 2 b')' ∷ []) ≡ 0
depth_after-Balanced_example = depth_after-Balanced 0 group-Balanced (omega arith)
