-- ===== src/Api/Cached.antt =====
-- The answers that `_call` of witness/providers.py has returned, and its cache.
use witness_subnet.Base.{
  ℕ, ◌≡◌, refl, sym, ap, ◌∙◌, true, false, Option, some, List, arith, inl, inr, Bool-cases,
  Option-cases,
}
use witness_subnet.Base.Eq.{◌==◌, nat_eq}
use witness_subnet.Base.Text.{Text, text_eq}
use witness_subnet.Base.Dict.{contains}
use witness_subnet.Base.Outcome.{ok, ok-injective}
use witness_subnet.Base.Method.{
  Action, ◌>>=◌, ◌>>◌, modify, lift, or_raise, raise, pure, >>=-returned,
}
use witness_subnet.Errors.{Error, json_decode_error, provider_transport, provider_status}
use witness_subnet.Json.{Json}
use witness_subnet.Storage.{read, write_private}
use witness_subnet.Storage.Once.{write_private-read, read-contains}
use witness_subnet.Api.{ApiText, Rates}
use witness_subnet.Api.Request.{Request, digest, cache_name}
use witness_subnet.Api.Answer.{Reply, read_reply, result_of}
use witness_subnet.Api.World.{
  transport_error, provider_error, answered, Answer, World, in_cache, Circumstances, Response,
}
use witness_subnet.Api.Send.{Ended, lost, responded}
use witness_subnet.Api.Finish.{
  lost_metadata, rejected_metadata, answered_metadata, close_call, finish_lost, finish_rejected,
  add_note, answer_of, keep_answer, finish_reply, finish_answered, finish,
}
use witness_subnet.Api.Call.{Dispatch, cached_answer, dispatch, _call}

-- A file of the cache holds the result.
abbrev Cached : Text → Json → World → Type 0
Cached d result w =
    (answer : Answer) × (read (cache_name d) w.cache ≡ some answer) × (answer.result ≡ result)

never_ok :
    {A : Type 0} (m : Action Error World A) (e : Error) (s : World) (b : Json)
    → ((m >>= λ _. raise {A = Json} e) s).0 ≡ ok b
    → ⊥
never_ok m e s b h = let (a, t, first, last, all) = >>=-returned m (λ _. raise e) s b h in cc

module _ (api : ApiText) (fault : Option ℕ) (temporary d : Text)
    (apart : (temporary == cache_name d) ≡ false) where
  keep_answer-Cached :
      (reply : Reply) (result b : Json) (s : World)
      → (keep_answer api fault temporary d reply result s).0 ≡ ok b
      → Cached d b (keep_answer api fault temporary d reply result s).1
  unfolding keep_answer in_cache add_note
  keep_answer-Cached reply result b s h =
      let answer = answer_of api d result reply in
      let write = write_private fault temporary (cache_name d) answer in
      let note = modify (add_note d false reply.cost reply.response_id) in
      let (u, t, both, last, all) =
        >>=-returned (in_cache write >> note) (λ _. pure result) s b h in
      let is_result : result ≡ b = ok-injective last in
      let (u', t', written, noted, all') =
        >>=-returned (in_cache write) (λ _. note) s u (ap (λ x. x.0) both) in
      let good : (write s.cache).0 ≡ ok u' = ap (λ x. x.0) written in
      let shown = write_private-read temporary (cache_name d) answer s.cache apart fault good in
      let cache : t'.cache ≡ (write s.cache).1 = ap (λ x. x.1.cache) (sym written) in
      let same : t.cache ≡ t'.cache = ap (λ x. x.1.cache) (sym both ∙ all') in
      rw all (answer, rw (same, cache) shown, is_result)

  module _ (loads : Text → Option Json) (limit : Option ℕ) (rates : Rates) (id : Text)
      (price : ℕ) where
    -- Where a result is returned, it is cached.
    abbrev KeepsResults : {A : Type 0} → (A → Action Error World Json) → Type 0
    KeepsResults {A} k = (a : A) (b : Json) (s : World) → (k a s).0 ≡ ok b → Cached d b (k a s).1

    chain :
        {A : Type 0} (m : Action Error World A) (k : A → Action Error World Json)
        → KeepsResults k
        → (b : Json) (s : World) → ((m >>= k) s).0 ≡ ok b
        → Cached d b ((m >>= k) s).1
    chain m k next b s h =
        let (a, t, first, last, all) = >>=-returned m k s b h in rw all (next a b t last)

    answered_keeps :
        (r : Response) (b : Json) (s : World)
        → ((or_raise r.json json_decode_error
              >>= finish_answered loads api limit rates id fault temporary d)
            s).0
          ≡ ok b
        → Cached d b
            ((or_raise r.json json_decode_error
                >>= finish_answered loads api limit rates id fault temporary d)
              s).1
    unfolding finish_answered finish_reply
    answered_keeps r =
        chain (or_raise r.json json_decode_error)
          (finish_answered loads api limit rates id fault temporary d)
          (λ raw.
            chain (lift (read_reply api.provider rates raw))
              (finish_reply loads api limit id fault temporary d raw)
              (λ reply.
                chain
                  (close_call limit id (answered api.model reply) reply.cost
                    (answered_metadata api.provider reply))
                  (λ _.
                    lift (result_of loads api.model reply raw)
                    >>= keep_answer api fault temporary d reply)
                  (λ _.
                    chain (lift (result_of loads api.model reply raw))
                      (keep_answer api fault temporary d reply)
                      (λ result b s h. keep_answer-Cached reply result b s h))))

    pub finish-Cached :
        (e : Ended) (b : Json) (s : World)
        → (finish loads api limit rates id price fault temporary d e s).0 ≡ ok b
        → Cached d b (finish loads api limit rates id price fault temporary d e s).1
    unfolding finish finish_lost finish_rejected
    finish-Cached (lost name) b s h = absurd (
        never_ok
          (close_call limit id (transport_error name) price (lost_metadata api.provider name))
          (provider_transport api.provider name) s b h)
    finish-Cached (responded r) b s h = elim (Bool-cases (r.status_code == 200)) [
      | inr other ↦ absurd (
          never_ok
            (close_call limit id (provider_error r.status_code) 0
              (rejected_metadata api.provider r.status_code))
            (provider_status api.provider r.status_code) s b (rw (other, finish) at h))
      | inl fine ↦ rw (fine, finish) (answered_keeps r b s (rw (fine, finish) at h))
    ]

cached_answer-Cached :
    (d : Text) (b : Json) (s : World)
    → (cached_answer d s).0 ≡ ok b
    → Cached d b (cached_answer d s).1
unfolding cached_answer add_note
cached_answer-Cached d b s h = elim (Option-cases (read (cache_name d) s.cache)) [
  | inl e ↦ absurd (ground arith)
  | inr (answer, e) ↦
      let is : answer.result ≡ b = ok-injective (rw (e, cached_answer) at h) in
      rw (e, cached_answer) (answer, e, is)
]

module _ (sha256 : List ℕ → Text) (loads : Text → Option Json) (api : ApiText) (r : Request)
    (c : Circumstances) where
  call-Cached :
      (s : World) (b : Json)
      → (c.temporary == cache_name (digest sha256 api r)) ≡ false
      → (_call sha256 loads api r c s).0 ≡ ok b
      → Cached (digest sha256 api r) b (_call sha256 loads api r c s).1
  unfolding _call
  call-Cached s b apart h =
      elim (Bool-cases (contains (cache_name (digest sha256 api r)) s.cache.current)) [
        | inl here ↦
            rw (here, _call)
              (cached_answer-Cached (digest sha256 api r) b s (rw (here, _call) at h))
        | inr absent ↦
            let done = λ (d : Dispatch).
              finish loads api d.limit d.rates c.fresh d.price c.fault c.temporary
                (digest sha256 api r) d.ended in
            let (d, t, first, last, all) =
              >>=-returned (dispatch sha256 api r c) done s b (rw (absent, _call) at h) in
            rw (absent, _call, all)
              (finish-Cached api c.fault c.temporary (digest sha256 api r) apart loads d.limit
                d.rates c.fresh d.price d.ended b t last)
      ]

  -- A call whose answer is in the cache returns it, and nothing is sent.
  Cached-call :
      (s : World) (b : Json)
      → Cached (digest sha256 api r) b s
      → ((_call sha256 loads api r c s).0 ≡ ok b)
        × ((_call sha256 loads api r c s).1.sent ≡ s.sent)
        × ((_call sha256 loads api r c s).1.budget ≡ s.budget)
  unfolding _call cached_answer add_note
  Cached-call s b (answer, shown, is) =
      let here : contains (cache_name (digest sha256 api r)) s.cache.current ≡ true =
        read-contains (cache_name (digest sha256 api r)) s.cache answer shown in
      rw (here, _call, shown, cached_answer) (ap ok is, refl, refl)

-- If a call returns a result, its temporary name not being the name of the cached answer, the
-- next call with that digest returns it too, posts nothing and leaves the budget as it is.
pub answered_once :
    (sha256 : List ℕ → Text) (loads : Text → Option Json) (api again : ApiText) (r r' : Request)
    (c c' : Circumstances) (s : World) (b : Json)
    → (c.temporary == cache_name (digest sha256 api r)) ≡ false
    → (_call sha256 loads api r c s).0 ≡ ok b
    → digest sha256 again r' ≡ digest sha256 api r
    → ((_call sha256 loads again r' c' (_call sha256 loads api r c s).1).0 ≡ ok b)
      × ((_call sha256 loads again r' c' (_call sha256 loads api r c s).1).1.sent
          ≡ (_call sha256 loads api r c s).1.sent)
      × ((_call sha256 loads again r' c' (_call sha256 loads api r c s).1).1.budget
          ≡ (_call sha256 loads api r c s).1.budget)
answered_once sha256 loads api again r r' c c' s b apart h alike =
    Cached-call sha256 loads again r' c' (_call sha256 loads api r c s).1 b
      (rw alike (call-Cached sha256 loads api r c s b apart h))
