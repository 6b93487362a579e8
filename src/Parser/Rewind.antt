-- ===== src/Parser/Rewind.antt =====
-- Checkpoints of src/parser.c: speculation that leaves no trace.
use kavak.Base.{
  ℕ, ◌+◌, ◌≤◌, ◌≡◌, refl, ap, ◌∙◌, inl, inr, List, [], ◌++◌, Option, none, some, ltb, leb,
  if◌then◌else◌, length, length-append, take, take-append, length_zero, append_nil, arith,
  Bool-cases,
}
use kavak.Diag.{Diag, DiagVec, count}
use kavak.Parser.{Parser, token_count}

-- `KavakParserCheckpoint`
pub record Checkpoint : Type 0 where
  pub pos : ℕ
  pub diag_count : ℕ

-- `parser->diags ? parser->diags->count : 0`
abbrev pub count_or_zero : Option DiagVec → ℕ
count_or_zero none = 0
count_or_zero (some d) = count d

-- `kavak_parser_checkpoint`
abbrev pub checkpoint : Parser → Checkpoint
checkpoint p = record { pos = p.pos; diag_count = count_or_zero p.diags }

-- the end of `kavak_parser_rewind`
unfoldable pub drop_diags : Option DiagVec → ℕ → Option DiagVec
drop_diags none n = none
drop_diags (some d) n = some (if ltb n (count d) then record d { items = take n d.items } else d)

-- `kavak_parser_rewind`
unfoldable pub rewind : Parser → Checkpoint → Parser
unfolding drop_diags
rewind p c = record p {
  pos = if leb c.pos (token_count p) then c.pos else token_count p;
  diags = drop_diags p.diags c.diag_count;
}

-- Diagnostics that have grown from `before` by what was pushed.
abbrev pub Grew : Option DiagVec → Option DiagVec → Type 0
Grew none none = Unit
Grew none (some d) = ⊥
Grew (some d) none = ⊥
Grew (some before) (some after) = (more : List Diag) × (after.items ≡ before.items ++ more)

-- The same diagnostics, whatever the capacity.
abbrev pub SameItems : Option DiagVec → Option DiagVec → Type 0
SameItems none none = Unit
SameItems none (some d) = ⊥
SameItems (some d) none = ⊥
SameItems (some d) (some d') = d.items ≡ d'.items

drop_diags-SameItems :
    (before after : Option DiagVec)
    → Grew before after
    → SameItems (drop_diags after (count_or_zero before)) before
unfolding drop_diags
drop_diags-SameItems none none g = tt
drop_diags-SameItems none (some a) g = elim g [ ]
drop_diags-SameItems (some b) none g = elim g [ ]
drop_diags-SameItems (some b) (some a) (more, same) =
    let counts : count a ≡ count b + length more = ap length same ∙ length-append b.items more in
    elim (Bool-cases (ltb (count b) (count a))) [
      | inl grown ↦ rw grown (ap (take (count b)) same ∙ take-append b.items more)
      | inr even ↦
          let none_more : more ≡ [] = length_zero more (ground (arith, counts, even)) in
          rw even (same ∙ ap (◌++◌ b.items) none_more ∙ append_nil b.items)
    ]

-- A rewind to a checkpoint restores the position and the diagnostics of the parser that it was taken
-- of, whatever was parsed since, as long as the tokens are the same and diagnostics were only pushed.
pub rewind-checkpoint :
    (p q : Parser)
    → p.pos ≤ token_count p
    → q.tokens ≡ p.tokens
    → Grew p.diags q.diags
    → ((rewind q (checkpoint p)).pos ≡ p.pos)
      × SameItems (rewind q (checkpoint p)).diags p.diags
      × ((rewind q (checkpoint p)).expr_depth ≡ q.expr_depth)
unfolding rewind
rewind-checkpoint p q inside same grew =
    (ground (arith, ap length same), drop_diags-SameItems p.diags q.diags grew, refl)
