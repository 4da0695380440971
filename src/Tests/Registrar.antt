-- ===== src/Tests/Registrar.antt =====
-- Calls of the registrar: control/app/registrar.py.
use boathouse_cloud.Prelude.{ℕ, zero, suc, ◌≡◌, refl, true, false, not, ◌&&◌, ◌||◌, none, some}
use boathouse_cloud.Registrar.Call.{
  Answer, success, failure, in_use, object, Reply, interrupted, response, theirs, returned, raised,
  provider_unavailable, call,
}
use boathouse_cloud.Registrar.Explained.{grants, refuses, reaches, Explained, call-Explained}

abbrev bought : Answer
bought = record { status = success; code = none; is_retryable = false }

abbrev refusal : Answer
refusal = record { status = failure; code = none; is_retryable = false }

abbrev clash : Answer
clash = record { status = failure; code = some in_use; is_retryable = false }

abbrev answer : ℕ → Answer → Reply
answer code a =
    response
      (record { status_code = code; retry_after = some 10; is_replayed = false; body = object a })

-- Two limits of the rate and then an answer, and the same with an interruption.
abbrev slow : Reply → ℕ → Reply
slow last zero = answer 429 refusal
slow last (suc zero) = answer 429 refusal
slow last (suc (suc n)) = last

sent_thrice : call true true true (slow (answer 200 bought)) ≡ returned 22 bought
unfolding call
sent_thrice = refl

clash_is_uncertain :
    call true true true (slow (answer 400 clash))
    ≡ raised 22 (record {
      kind = theirs (some in_use);
      status = 503;
      is_uncertain = true;
      is_replayed = false;
    })
unfolding call
clash_is_uncertain = refl

refusal_is_certain :
    call true true true (slow (answer 400 refusal))
    ≡ raised 22
        (record { kind = theirs none; status = 422; is_uncertain = false; is_replayed = false })
unfolding call
refusal_is_certain = refl

interruption_is_uncertain :
    call true true true (slow interrupted)
    ≡ raised 22 (record {
      kind = provider_unavailable;
      status = 503;
      is_uncertain = true;
      is_replayed = false;
    })
unfolding call
interruption_is_uncertain = refl

call-Explained_example :
    Explained 42 true
      (reaches grants (slow (answer 400 refusal)) 0 2)
      ((true && not true) || reaches refuses (slow (answer 400 refusal)) 0 2)
      (call true true true (slow (answer 400 refusal)))
call-Explained_example = call-Explained true true true (slow (answer 400 refusal))
