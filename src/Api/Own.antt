-- ===== src/Api/Own.antt =====
-- What the end of a call of witness/providers.py leaves of the table `calls`, and of the posts.
use witness_subnet.Base.{
  ℕ, ◌≡◌, refl, ◌∙◌, Bool, true, false, Option, none, some, inl, inr, Bool-cases, Option-cases,
}
use witness_subnet.Base.Eq.{◌==◌, nat_eq}
use witness_subnet.Base.Text.{Text, text_eq}
use witness_subnet.Base.Dict.{lookup, lookup-insert}
use witness_subnet.Base.Method.{
  Action, ◌>>=◌, ◌>>◌, guard, modify, lift, or_raise, raise, pure, >>=_keeps,
}
use witness_subnet.Errors.{Error, json_decode_error, provider_transport, provider_status}
use witness_subnet.Json.{Json}
use witness_subnet.Budget.{File, Usd, on_file, settle}
use witness_subnet.Storage.{Disk, write_private}
use witness_subnet.Api.{ApiText, Rates}
use witness_subnet.Api.Request.{cache_name}
use witness_subnet.Api.Answer.{Reply, read_reply, result_of}
use witness_subnet.Api.World.{
  Record, transport_error, provider_error, answered, Answer, World, in_budget, in_cache, update_row,
  record_call,
}
use witness_subnet.Api.Send.{Ended, responded, lost}
use witness_subnet.Api.Finish.{
  lost_metadata, rejected_metadata, answered_metadata, close_call, finish_lost, finish_rejected,
  add_note, answer_of, keep_answer, finish_reply, finish_answered, finish,
}

-- Nothing is sent, and the rows are the same but for the one of that id.
abbrev pub Own : Text → World → World → Type 0
Own id s t =
    (t.sent ≡ s.sent)
    × ((other : Text) → (id == other) ≡ false → lookup other t.rows ≡ lookup other s.rows)

module _ (id : Text) where
  abbrev pub KeepsOthers : {A : Type 0} → Action Error World A → Type 0
  KeepsOthers m = (s : World) → Own id s (m s).1

  same : (s : World) → Own id s s
  same s = (refl, λ other apart. refl)

  Own-trans : (s t u : World) → Own id s t → Own id t u → Own id s u
  Own-trans s t u p q = (q.0 ∙ p.0, λ other apart. q.1 other apart ∙ p.1 other apart)

  chain :
      {A B : Type 0} (m : Action Error World A) (k : A → Action Error World B)
      → KeepsOthers m
      → ((a : A) → KeepsOthers (k a))
      → KeepsOthers (m >>= k)
  chain m k first next = >>=_keeps (Own id) m k Own-trans first next

  guard_keeps : (b : Bool) (e : Error) → KeepsOthers (guard b e)
  guard_keeps true e s = same s
  guard_keeps false e s = same s

  or_raise_keeps : {A : Type 0} (o : Option A) (e : Error) → KeepsOthers (or_raise o e)
  or_raise_keeps none e s = same s
  or_raise_keeps (some a) e s = same s

  in_budget_keeps : {A : Type 0} (m : Action Error File A) → KeepsOthers (in_budget m)
  unfolding in_budget
  in_budget_keeps m s = (refl, λ other apart. refl)

  in_cache_keeps : {A : Type 0} (m : Action Error (Disk Answer) A) → KeepsOthers (in_cache m)
  unfolding in_cache
  in_cache_keeps m s = (refl, λ other apart. refl)

  pub record_call_keeps :
      (recorded : Record) (cost : Option ℕ) → KeepsOthers (modify (record_call id recorded cost))
  unfolding record_call update_row
  record_call_keeps recorded cost s = (
    refl,
    λ other apart. elim (Option-cases (lookup id s.rows)) [
      | inl e ↦ rw (e, update_row) refl
      | inr (row, e) ↦
          rw (e, update_row)
            (lookup-insert id other (record row { cost = cost; recorded = recorded }) s.rows
              ∙ rw apart refl)
    ],
  )

  close_call_keeps :
      (limit : Option ℕ) (recorded : Record) (cost : ℕ) (metadata : Json)
      → KeepsOthers (close_call limit id recorded cost metadata)
  unfolding close_call
  close_call_keeps limit recorded cost metadata =
      let settled = in_budget (on_file limit (settle id (Usd.decimal cost 9) metadata)) in
      chain (modify (record_call id recorded (some cost))) (λ _. settled)
        (record_call_keeps recorded (some cost))
        (λ _. in_budget_keeps (on_file limit (settle id (Usd.decimal cost 9) metadata)))

  finish_lost_keeps :
      (api : ApiText) (limit : Option ℕ) (price : ℕ) (name : Text)
      → KeepsOthers (finish_lost api limit id price name)
  unfolding finish_lost
  finish_lost_keeps api limit price name =
      let metadata = lost_metadata api.provider name in
      chain (close_call limit id (transport_error name) price metadata)
        (λ _. raise (provider_transport api.provider name))
        (close_call_keeps limit (transport_error name) price metadata) (λ _ s. same s)

  finish_rejected_keeps :
      (api : ApiText) (limit : Option ℕ) (status : ℕ)
      → KeepsOthers (finish_rejected api limit id status)
  unfolding finish_rejected
  finish_rejected_keeps api limit status =
      let metadata = rejected_metadata api.provider status in
      chain (close_call limit id (provider_error status) 0 metadata)
        (λ _. raise (provider_status api.provider status))
        (close_call_keeps limit (provider_error status) 0 metadata) (λ _ s. same s)

  keep_answer_keeps :
      (api : ApiText) (fault : Option ℕ) (temporary digest : Text) (reply : Reply) (result : Json)
      → KeepsOthers (keep_answer api fault temporary digest reply result)
  unfolding keep_answer add_note
  keep_answer_keeps api fault temporary digest reply result =
      let written =
        write_private fault temporary (cache_name digest) (answer_of api digest result reply) in
      let note = modify (add_note digest false reply.cost reply.response_id) in
      chain (in_cache written >> note) (λ _. pure result)
        (chain (in_cache written) (λ _. note) (in_cache_keeps written) (λ _ s. same s))
        (λ _ s. same s)

  finish_reply_keeps :
      (loads : Text → Option Json) (api : ApiText) (limit fault : Option ℕ)
      (temporary digest : Text) (raw : Json) (reply : Reply)
      → KeepsOthers (finish_reply loads api limit id fault temporary digest raw reply)
  unfolding finish_reply
  finish_reply_keeps loads api limit fault temporary digest raw reply =
      let metadata = answered_metadata api.provider reply in
      let keep = keep_answer api fault temporary digest reply in
      let result = result_of loads api.model reply raw in
      chain (close_call limit id (answered api.model reply) reply.cost metadata)
        (λ _. lift result >>= keep)
        (close_call_keeps limit (answered api.model reply) reply.cost metadata)
        (λ _. chain (lift result) keep same (keep_answer_keeps api fault temporary digest reply))

  pub finish_keeps :
      (loads : Text → Option Json) (api : ApiText) (limit : Option ℕ) (rates : Rates) (price : ℕ)
      (fault : Option ℕ) (temporary digest : Text) (ended : Ended)
      → KeepsOthers (finish loads api limit rates id price fault temporary digest ended)
  unfolding finish finish_answered
  finish_keeps loads api limit rates price fault temporary digest (lost name) s =
      finish_lost_keeps api limit price name s
  finish_keeps loads api limit rates price fault temporary digest (responded r) s =
      elim (Bool-cases (r.status_code == 200)) [
        | inr other ↦ rw (other, finish) (finish_rejected_keeps api limit r.status_code s)
        | inl fine ↦
            let reply = finish_reply loads api limit id fault temporary digest in
            let answer = finish_answered loads api limit rates id fault temporary digest in
            rw (fine, finish)
              (chain (or_raise r.json json_decode_error) answer
                (or_raise_keeps r.json json_decode_error)
                (λ raw.
                  chain (lift (read_reply api.provider rates raw)) (reply raw) same
                    (finish_reply_keeps loads api limit fault temporary digest raw))
                s)
      ]
