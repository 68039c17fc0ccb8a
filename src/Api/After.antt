-- ===== src/Api/After.antt =====
-- What the start of a paid call of witness/providers.py leaves.
use witness_subnet.Base.{
  ℕ, ◌≡◌, refl, ap, ◌∙◌, false, none, some, List, ◌++◌, arith, inl, inr, Bool-cases,
}
use witness_subnet.Base.Eq.{◌==◌, eq_iff, eq_refl}
use witness_subnet.Base.Text.{Text, text, text_eq}
use witness_subnet.Base.Dict.{Dict, lookup, insert, contains, lookup-insert}
use witness_subnet.Api.{ApiText}
use witness_subnet.Api.Request.{Request}
use witness_subnet.Api.World.{Row, World, in_budget, usage_not_received, Circumstances}
use witness_subnet.Api.Send.{insert_call}
use witness_subnet.Api.Checks.{Checked}
use witness_subnet.Api.Dispatch.{Paid, hash, price_of}
use witness_subnet.Budget.Granted.{granted, on_file-granted}

-- Rows are kept as they are.
abbrev pub Kept : World → World → Type 0
Kept s t = (id : Text) (row : Row) → lookup id s.rows ≡ some row → lookup id t.rows ≡ some row

pub apart_new :
    (fresh id : Text) (rows : Dict Text Row) (row : Row)
    → contains fresh rows ≡ false
    → lookup id rows ≡ some row
    → (fresh == id) ≡ false
unfolding contains
apart_new fresh id rows row new found = elim (Bool-cases (fresh == id)) [
  | inr apart ↦ apart
  | inl same ↦ let at : fresh ≡ id = (eq_iff fresh id).0 same in absurd (ground (arith))
]

module _ (sha256 : List ℕ → Text) (api : ApiText) (r : Request) (c : Circumstances)
    (found : Checked) (s : World) (p : Paid sha256 api r c found s) where
  -- The row that the call has entered, and that it is all that has changed of the table
  abbrev pub own_row : Row
  own_row = record {
    input_hash = hash sha256 api r c;
    reserve = price_of sha256 api r c found;
    cost = none;
    recorded = usage_not_received api.model;
  }

  pub after-rows : p.after.rows ≡ insert c.fresh own_row s.rows
  unfolding insert_call in_budget
  after-rows = ap (λ w. w.rows) p.posted.left

  pub after-other :
      (id : Text) → (c.fresh == id) ≡ false → lookup id p.after.rows ≡ lookup id s.rows
  after-other id apart =
      ap (λ rows. lookup id rows) after-rows
      ∙ lookup-insert c.fresh id own_row s.rows
      ∙ rw apart refl

  pub after-own : lookup c.fresh p.after.rows ≡ some own_row
  after-own =
      ap (λ rows. lookup c.fresh rows) after-rows
      ∙ lookup-insert c.fresh c.fresh own_row s.rows
      ∙ rw (eq_refl c.fresh) refl

  pub after-Kept : Kept s p.after
  after-Kept id row there =
      after-other id (apart_new c.fresh id s.rows row p.entered.1 there) ∙ there

  pub after-sent : p.after.sent ≡ p.posted.posts ++ s.sent
  unfolding insert_call in_budget
  after-sent = ap (λ w. w.sent) p.posted.left

  pub after-reserved :
      lookup c.fresh p.after.budget.rows
      ≡ some (
          granted c.day
            (text "validator")
            api.provider
            (hash sha256 api r c)
            (price_of sha256 api r c found))
  unfolding insert_call in_budget
  after-reserved =
      ap (λ w. lookup c.fresh w.budget.rows) p.posted.left
      ∙ on_file-granted p.limit c.fresh c.day (text "validator") api.provider (hash sha256 api r c)
          p.entered.2 (price_of sha256 api r c found) p.file p.entered.3
