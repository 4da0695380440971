-- ===== src/Registrar/Call.antt =====
-- `_call` of control/app/registrar.py: one request, sent again while the registrar limits its rate.
use boathouse_cloud.Prelude.{
  ℕ, zero, suc, ◌+◌, min, Bool, true, false, not, ◌&&◌, ◌||◌, Option, none, some, ◌==◌, leb,
  if◌then◌else◌,
}

-- `data["status"]`
pub data Status : Type 0 where
  success pending failure unrecognized : Status

-- `data["code"]`
pub data Code : Type 0 where
  in_use mismatch : Code
  other_code : ℕ → Code

-- The fields that are read of an object.
pub record Answer : Type 0 where
  pub status : Status
  pub code : Option Code
  pub is_retryable : Bool

pub data Body : Type 0 where
  unreadable no_object : Body
  object : Answer → Body

-- A response; the header Retry-After is `none` where it is not a number.
pub record Response : Type 0 where
  pub status_code : ℕ
  pub retry_after : Option ℕ
  pub is_replayed : Bool
  pub body : Body

-- What an HTTP request ends in; `interrupted` is httpx.HTTPError.
pub data Reply : Type 0 where
  interrupted : Reply
  response : Response → Reply

pub data Kind : Type 0 where
  no_registrar provider_unavailable rate_limit bad_response : Kind
  theirs : Option Code → Kind

-- `RegistrarError`
pub record RegistrarError : Type 0 where
  pub kind : Kind
  pub status : ℕ
  pub is_uncertain : Bool
  pub is_replayed : Bool

-- The result, and the seconds that were slept.
pub data Outcome : Type 0 where
  returned : ℕ → Answer → Outcome
  raised : ℕ → RegistrarError → Outcome

abbrev pub raised_by : ℕ → Kind → ℕ → Bool → Outcome
raised_by slept kind status uncertain =
    raised slept
      (record { kind = kind; status = status; is_uncertain = uncertain; is_replayed = false })

-- the seconds after which a request is sent again
abbrev pub wait_of : Option ℕ → ℕ
wait_of none = 11
wait_of (some s) = min s 20 + 1

abbrev pub is_accepted : Status → Bool
is_accepted success = true
is_accepted pending = true
is_accepted failure = false
is_accepted unrecognized = false

abbrev pub is_key_trouble : Option Code → Bool
is_key_trouble (some in_use) = true
is_key_trouble (some mismatch) = true
is_key_trouble _ = false

-- the local `pending`
abbrev pub is_open : ℕ → Answer → Bool
is_open code a =
    leb 500 code
    || ((code == 408 || code == 409)
        || ((leb 400 code && is_accepted a.status) || (is_key_trouble a.code || a.is_retryable)))

abbrev pub refused : Bool → ℕ → Response → Answer → Outcome
refused keyed slept r a = raised slept (record {
  kind = theirs a.code;
  status = if is_open r.status_code a then 503 else 422;
  is_uncertain = keyed && is_open r.status_code a;
  is_replayed = r.is_replayed;
})

-- an answer of one of the three statuses
abbrev pub recognized : Bool → ℕ → Response → Answer → Outcome
recognized keyed slept r a =
    if not (is_accepted a.status) || leb 400 r.status_code
    then refused keyed slept r a
    else returned slept a

abbrev pub judge_by : Status → Bool → ℕ → Response → Answer → Outcome
judge_by unrecognized keyed slept r a = raised_by slept bad_response 502 keyed
judge_by _ keyed slept r a = recognized keyed slept r a

-- The statements after the loop.
abbrev pub judge : Body → Bool → ℕ → Response → Outcome
judge unreadable keyed slept r = raised_by slept bad_response 502 keyed
judge no_object keyed slept r = raised_by slept bad_response 502 keyed
judge (object a) keyed slept r = judge_by a.status keyed slept r a

abbrev pub after_reply : Bool → ℕ → (ℕ → Outcome) → Reply → Outcome
after_reply keyed slept rest interrupted = raised_by slept provider_unavailable 503 keyed
after_reply keyed slept rest (response r) =
    if r.status_code == 429 then rest (wait_of r.retry_after) else judge r.body keyed slept r

-- The loop over `attempt`, from the attempt `i` on; `left` more may follow it.
abbrev pub exchange : Bool → (ℕ → Reply) → ℕ → ℕ → ℕ → Outcome
exchange keyed answers i zero slept =
    after_reply keyed slept (λ wait. raised_by slept rate_limit 429 keyed) (answers i)
exchange keyed answers i (suc left) slept =
    after_reply keyed slept (λ wait. exchange keyed answers (suc i) left (slept + wait)) (answers i)

-- `_call`: `connected` says whether there are keys, and `answers` what each attempt ends in.
unfoldable pub call : Bool → Bool → Bool → (ℕ → Reply) → Outcome
call authed connected keyed answers =
    if authed && not connected
    then raised_by 0 no_registrar 409 false
    else exchange keyed answers 0 2 0
