-- ===== src/Triggers/Tests.antt =====
-- Examples for the queue of triggers.
use mathlib.Core.List.{Memᴰ}
use witness_subnet.Base.{
  ℕ, ◌<◌, ◌≡◌, refl, Bool, true, false, ◌||◌, none, some, List, [], ◌∷◌, ◌++◌, arith, take, find,
  keep, if◌then◌else◌,
}
use witness_subnet.Base.Eq.{◌==◌, nat_eq}
use witness_subnet.Base.Text.{Text, text, text_eq, text_beq}
use witness_subnet.Base.Dict.{lookup}
use witness_subnet.Base.Outcome.{ok}
use witness_subnet.Protocol.Snapshot.{Row}
use witness_subnet.Submission.{commitment}
use witness_subnet.Submission.Tests.{submission}
use witness_subnet.Triggers.{
  Db, Trigger, Status, is_terminal, is_reset, with_id, start, finish, observe, next_turn,
}
use witness_subnet.Triggers.Rows.{HaveDistinctIds}
use witness_subnet.Triggers.Fair.{dispatch, group, append_to, release, head_held, round, rounds}
use witness_subnet.Triggers.Fair.Laws.{fair_order}
use witness_subnet.Triggers.Fair.Groups.{items_of, dispatch_fair, items_of-group}
use witness_subnet.Triggers.Reach.{Step, Reach, terminal_final, start_rotates}
use witness_subnet.Triggers.Binding.{BindsOnce, observe-BindsOnce}

-- A submission, as its owner and its number.
abbrev Item : Type 0
Item = Text × ℕ

abbrev items : List Item
items = (text "A", 1) ∷ (text "A", 2) ∷ (text "A", 3) ∷ (text "B", 1) ∷ (text "C", 1) ∷ []

abbrev owner : Item → Text
owner i = i.0

abbrev never : Item → Bool
never i = false

dispatched :
    dispatch owner never 5 items
    ≡ (text "A", 1) ∷ (text "B", 1) ∷ (text "C", 1) ∷ (text "A", 2) ∷ (text "A", 3) ∷ []
unfolding dispatch group append_to release head_held round rounds text_beq
dispatched = refl

dispatch_fair_example :
    dispatch owner never 4 items
    ≡ take 4 (fair_order 5 (release owner never (group owner never [] items)))
dispatch_fair_example = dispatch_fair owner never 4 items

items_of-group_example :
    items_of (text "A") (group owner never [] items) ≡ [] ++ keep (λ x. owner x == text "A") items
items_of-group_example = items_of-group owner never (text "A") [] items

abbrev trigger : ℕ → Text → Text → Status → Trigger
trigger id hotkey coldkey status = record {
  id = id;
  hotkey = hotkey;
  value = text "wm2|";
  block = 5;
  status = status;
  reason = none;
  observed_unix = 0;
  finished_unix = none;
  result = none;
  coldkey = coldkey;
  uid = 1;
  model_id = text "m";
  window_id = none;
  retry_block = 0;
  attempts = 0;
}

abbrev finished : Trigger
finished = trigger 1 (text "a") (text "A") Status.done

abbrev db : Db
db = record {
  triggers = finished ∷ trigger 2 (text "b") (text "B") Status.queued ∷ [];
  coldkey_turns = (text "A", 1) ∷ (text "B", 2) ∷ (text "C", 3) ∷ [];
  king = none;
  admission_reset = none;
  admission_archive = [];
}

db-HaveDistinctIds : HaveDistinctIds db.triggers
db-HaveDistinctIds = ((λ e. absurd (omega (arith, e)), tt), (tt, tt))

-- A result that is reported for the finished row, and a start of the other one.
abbrev later : Db
later = (start 2 (some 4) (finish 9 1 Status.rejected none none db).1).1

finished-is_terminal : is_terminal finished.status ≡ true
unfolding is_terminal
finished-is_terminal = refl

terminal_final_example : Memᴰ finished later.triggers
terminal_final_example =
    terminal_final finished finished-is_terminal db-HaveDistinctIds (Memᴰ.head refl) (
      Reach.next (Reach.next Reach.here (Step.finishes 9 1 Status.rejected none none refl))
        (Step.starts 2 (some 4) refl))

found : find (with_id 2) db.triggers ≡ some (trigger 2 (text "b") (text "B") Status.queued)
unfolding with_id
found = refl

queued_alive : is_terminal Status.queued || is_reset Status.queued ≡ false
unfolding is_terminal is_reset
queued_alive = refl

turn_of_b : lookup (text "B") db.coldkey_turns ≡ some 2
unfolding lookup text_beq
turn_of_b = refl

turn_of_c : lookup (text "C") db.coldkey_turns ≡ some 3
unfolding lookup text_beq
turn_of_c = refl

start_rotates_example :
    let (r, after) = start 2 (some 4) db in
    let next = next_turn db.coldkey_turns in
    (r ≡ ok tt)
    × (lookup (text "B") after.coldkey_turns ≡ some next)
    × (lookup (text "C") after.coldkey_turns ≡ some (if text "C" == text "B" then next else 3))
    × (3 < next)
start_rotates_example =
    start_rotates 2 (some 4) db (trigger 2 (text "b") (text "B") Status.queued) 2 (text "C") 3 found
      queued_alive turn_of_b turn_of_c

abbrev challenge_id : Text → Text → Text
challenge_id hotkey model = hotkey ++ model

abbrev empty : Db
empty = record {
  triggers = [];
  coldkey_turns = [];
  king = none;
  admission_reset = none;
  admission_archive = [];
}

-- One hotkey submits twice.
abbrev rows : List Row
rows =
    (record { block = 7; hotkey = text "a"; value = commitment submission })
    ∷ (record { block = 5; hotkey = text "a"; value = commitment submission })
    ∷ []

empty-BindsOnce : BindsOnce empty
empty-BindsOnce h = omega arith

observe-BindsOnce_example :
    BindsOnce
      (observe challenge_id 9
        (text "a" ∷ [])
        ((text "a", text "A") ∷ [])
        ((text "a", 1) ∷ [])
        rows
        1
        empty).1
observe-BindsOnce_example =
    observe-BindsOnce challenge_id 9 (text "a" ∷ []) ((text "a", text "A") ∷ [])
      ((text "a", 1) ∷ []) rows 1 empty empty-BindsOnce
