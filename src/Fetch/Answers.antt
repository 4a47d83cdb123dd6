-- ===== src/Fetch/Answers.antt =====
-- How fetch/fetch.service.ts passes answers and failures on.
use codebase_be_nestjs.Common.{
  String, ◌≡◌, ◌↔◌, refl, sym, ap, ◌∙◌, true, Option, none, some, List, Bool-cases, inl, inr,
}
use codebase_be_nestjs.Common.Effect.{
  Exec, Result, ok, continue, continue-ok, err≢ok, ok_inj, ◌>>=◌,
}
use codebase_be_nestjs.Dto.Url.{Properties}
use codebase_be_nestjs.Fetch.{
  Dto, Headers, FetchRequest, Response, request_of, upload_request_of, checked, read_json, call,
  call_raw, upload, entries,
}

module _ {S J : Type 0} where
  -- The value of an answer whose status is a success and whose text is JSON.
  abbrev pub Answers : {A : Type 0} → (J → A) → Result (Response J) × S → A → S → Type 0
  Answers f sent a s' =
      (response : Response J) × (sent ≡ (ok response, s'))
      × (response.is_ok ≡ true)
      × ((j : J) × (response.json ≡ some j) × (f j ≡ a))

  -- The same, whatever the status is.
  abbrev pub AnswersAny : {A : Type 0} → (J → A) → Result (Response J) × S → A → S → Type 0
  AnswersAny f sent a s' =
      (response : Response J) × (sent ≡ (ok response, s'))
      × ((j : J) × (response.json ≡ some j) × (f j ≡ a))

  read_json-ok :
      {A : Type 0} (f : J → A) (o : Option J) (s : S) (a : A) (s' : S)
      → read_json f o s ≡ (ok a, s')
      → (s ≡ s') × ((j : J) × (o ≡ some j) × (f j ≡ a))
  read_json-ok f none s a s' h = absurd (err≢ok (ap (λ p. p.0) h))
  read_json-ok f (some j) s a s' h = (ap (λ p. p.1) h, (j, refl, ok_inj (ap (λ p. p.0) h)))

  read_json_complete :
      {A : Type 0} (f : J → A) (o : Option J) (s : S) (a : A) (j : J)
      → o ≡ some j
      → f j ≡ a
      → read_json f o s ≡ (ok a, s)
  read_json_complete f o s a j e h = rw (e, h) refl

  answers_any :
      {A : Type 0} (f : J → A) (sent : Result (Response J) × S) (a : A) (s' : S)
      → (continue sent.0 (λ response. read_json f response.json) sent.1 ≡ (ok a, s'))
        ↔ AnswersAny f sent a s'
  answers_any f (r, s) a s' = (
    λ h.
        let (response, got, read) = continue-ok r (λ response. read_json f response.json) s h in
        let (same, value) = read_json-ok f response.json s a s' read in
        (response, ap (λ x. (x, s)) got ∙ ap (λ x. (ok response, x)) same, value),
    λ (response, got, (j, e, h)).
        ap (λ p. continue p.0 (λ response. read_json f response.json) p.1) got
        ∙ read_json_complete f response.json s' a j e h,
  )

  checked-ok :
      {A : Type 0} (f : J → A) (response : Response J) (s : S) (a : A) (s' : S)
      → checked f response s ≡ (ok a, s')
      → (response.is_ok ≡ true) × (read_json f response.json s ≡ (ok a, s'))
  checked-ok f response s a s' h = elim (Bool-cases response.is_ok) [
    | inl e ↦ (e, rw e at h)
    | inr e ↦ absurd (err≢ok (ap (λ p. p.0) (rw e at h)))
  ]

  answers :
      {A : Type 0} (f : J → A) (sent : Result (Response J) × S) (a : A) (s' : S)
      → (continue sent.0 (checked f) sent.1 ≡ (ok a, s')) ↔ Answers f sent a s'
  answers f (r, s) a s' = (
    λ h.
        let (response, got, passed) = continue-ok r (checked f) s h in
        let (is_ok, read) = checked-ok f response s a s' passed in
        let (same, value) = read_json-ok f response.json s a s' read in
        (response, ap (λ x. (x, s)) got ∙ ap (λ x. (ok response, x)) same, is_ok, value),
    λ (response, got, is_ok, (j, e, h)).
        ap (λ p. continue p.0 (checked f) p.1) got
        ∙ rw is_ok (read_json_complete f response.json s' a j e h),
  )

some_inj : {A : Type 0} {a b : A} → some a ≡ some b → a ≡ b
some_inj h = cc

none-some : {A : Type 0} {a : A} → none ≡ some a → ⊥
none-some h = cc

module _ {S J D : Type 0} (fetch : FetchRequest → Exec S (Response J)) (to_instance : J → D)
    (host_name : String) (dto : Dto) (headers : Headers) (s s' : S) where
  uploads :
      (form_data : List (String × String)) (o : Option Properties) (j : J)
      → ((entries o >>= λ fields.
              fetch (upload_request_of host_name dto fields form_data headers) >>= checked (λ i. i))
            s
          ≡ (ok j, s'))
        ↔ ((fields : Properties) × (o ≡ some fields)
            × Answers
                (λ i. i)
                (fetch (upload_request_of host_name dto fields form_data headers) s)
                j
                s')
  uploads form_data none j =
      ((λ h. absurd (err≢ok (ap (λ p. p.0) h))), (λ (fields, e, _). absurd (none-some e)))
  uploads form_data (some fields) j =
      let sends =
        answers (λ i. i) (fetch (upload_request_of host_name dto fields form_data headers) s) j
          s' in
      (λ h. (fields, refl, sends.0 h), λ (given, e, h). sends.1 (rw (sym (some_inj e)) at h))

  -- call returns a value exactly if the request was answered with a status of success and with
  -- JSON that becomes that value, and so does upload with its own request, if the body has
  -- properties to take apart. callRaw returns a value exactly if the same request as call's was
  -- answered with that JSON, whatever the status.
  pub call-Answers :
      (form_data : List (String × String)) (d : D) (j : J)
      → ((call fetch to_instance host_name dto headers s ≡ (ok d, s'))
          ↔ Answers to_instance (fetch (request_of host_name dto headers) s) d s')
        × ((call_raw fetch to_instance host_name dto headers s ≡ (ok j, s'))
            ↔ AnswersAny (λ i. i) (fetch (request_of host_name dto headers) s) j s')
        × ((upload fetch to_instance host_name dto form_data headers s ≡ (ok j, s')) ↔ (
            (fields : Properties) × (dto.fields ≡ some fields)
            × Answers
                (λ i. i)
                (fetch (upload_request_of host_name dto fields form_data headers) s)
                j
                s'))
  unfolding call call_raw upload
  call-Answers form_data d j = (
    answers to_instance (fetch (request_of host_name dto headers) s) d s',
    answers_any (λ i. i) (fetch (request_of host_name dto headers) s) j s',
    uploads form_data dto.fields j,
  )
