-- ===== src/Api/World.antt =====
-- What a call of witness/providers.py reads and changes: the files of the cache, the table `calls` of
-- `usage.sqlite3`, the budget file, the list `self.calls` and the network. Times of the records are
-- left out.
use witness_subnet.Base.{ℕ, Bool, true, false, Option, none, some, List}
use witness_subnet.Base.Text.{Text, text, text_eq}
use witness_subnet.Base.Dict.{Dict, lookup, insert}
use witness_subnet.Base.Method.{Action}
use witness_subnet.Errors.{Error}
use witness_subnet.Json.{Json}
use witness_subnet.Storage.{Disk}
use witness_subnet.Budget.{File}
use witness_subnet.Api.Answer.{Reply, is_text}

-- The column `record`, by its status.
pub data Record : Type 0 where
  usage_not_received : Text → Record
  transport_error : Text → Record
  provider_error : ℕ → Record
  answered : Text → Reply → Record

-- `record["status"] == "usage_not_received"`
abbrev pub is_unknown : Record → Bool
is_unknown (usage_not_received model) = true
is_unknown (transport_error name) = false
is_unknown (provider_error status) = false
is_unknown (answered model reply) = is_text (text "usage_not_received") reply.status

-- A row of `calls`, by its id; amounts in nano-dollars.
pub record Row : Type 0 where
  pub input_hash : Text
  pub reserve : ℕ
  pub cost : Option ℕ
  pub recorded : Record

-- A file of the cache.
pub record Answer : Type 0 where
  pub input_hash : Text
  pub result : Json
  pub recorded : Record
  pub response_id : Json

-- An entry of `self.calls`.
pub record Note : Type 0 where
  pub input_hash : Text
  pub cache_hit : Bool
  pub cost : ℕ
  pub response_id : Json

pub record Response : Type 0 where
  pub status_code : ℕ
  pub json : Option Json

-- What a post meets: an answer, a failure to connect, another `TransportError` by the name of its
-- class, or any other exception. That the process is killed in the middle of the post counts as the
-- last one, since nothing of the method runs after it either.
pub data Met : Type 0 where
  response : Response → Met
  connect_error : Met
  connect_timeout : Met
  transport : Text → Met
  broken : Error → Met

-- A post that the network was given. The id of its call is kept for reading only.
pub record Post : Type 0 where
  pub call_id : Text
  pub endpoint : Text
  pub key : Text
  pub body : Json
  pub met : Met

pub record World : Type 0 where
  pub cache : Disk Answer
  pub rows : Dict Text Row
  pub budget : File
  pub calls : List Note
  pub sent : List Post

-- A method of the budget, or of the cache, on the whole.
module _ {A : Type 0} where
  unfoldable pub in_budget : Action Error File A → Action Error World A
  in_budget m w = let (r, f) = m w.budget in (r, record w { budget = f })

  unfoldable pub in_cache : Action Error (Disk Answer) A → Action Error World A
  in_cache m w = let (r, d) = m w.cache in (r, record w { cache = d })

-- `_record`: an `UPDATE` of the row of that id
unfoldable pub update_row : Text → Record → Option ℕ → Dict Text Row → Dict Text Row
update_row id recorded cost rows = elim (lookup id rows) [
  | none ↦ rows
  | some row ↦ insert id (record row { cost = cost; recorded = recorded }) rows
]

unfoldable pub record_call : Text → Record → Option ℕ → World → World
record_call id recorded cost w = record w { rows = update_row id recorded cost w.rows }

-- What one attempt to send meets: `self.request_timeout_s()` then, the time since `started`, and the post's end.
-- Times are in any unit, 0 for all that is not positive.
pub record Attempt : Type 0 where
  pub timeout : ℕ
  pub elapsed : ℕ
  pub met : Met

-- What a call meets: the environment variables, a fresh id, the day, the deadline, its two attempts,
-- the temporary name and the failing call of the write to the cache.
pub record Circumstances : Type 0 where
  pub environ : Text → Option Text
  pub fresh : Text
  pub day : Text
  pub timeout : ℕ
  pub first : Attempt
  pub second : Attempt
  pub temporary : Text
  pub fault : Option ℕ
