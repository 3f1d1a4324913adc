-- ===== src/Tgc/Run/Tests.antt =====
-- A bot signs in, works, and works again a minute later without being asked.
use teldrive_fork.Base.{◌*◌, ◌≡◌, refl, [], ◌∷◌, none, some, true, false, text_key}
use teldrive_fork.Services.Failure.{Failed, is_auth_key_unregistered, auth_key_unregistered}
use teldrive_fork.Retry.{contains, has_prefix}
use teldrive_fork.Tgc.Run.{Call, known, unknown, run_with_auth}
use teldrive_fork.Tgc.Run.Trust.{run, Admitted, run_with_auth-Admitted}

abbrev invalid : Failed
invalid = record { text = auth_key_unregistered; rpc_type = none; is_sentinel = false }

abbrev signs_in : Call
signs_in = record {
  token = b'1' ∷ [];
  connect = none;
  status = known false;
  sign_in = none;
  again = true;
  work = none;
  asked = 5;
  stored = 7;
}

abbrev a_minute_later : Call
a_minute_later = record signs_in { status = unknown invalid; asked = 60 * 1000000000 }

-- Work that finds the session invalid ends the trust.
abbrev refused_later : Call
refused_later = record a_minute_later { work = some invalid }

trust_ends : (run (refused_later ∷ (signs_in ∷ []))) (b'1' ∷ []) ≡ none
unfolding run run_with_auth is_auth_key_unregistered contains has_prefix
trust_ends = refl

works_again : (run_with_auth a_minute_later (run (signs_in ∷ []))).worked ≡ true
unfolding run run_with_auth
works_again = refl

run_with_auth-Admitted_example : Admitted (signs_in ∷ []) a_minute_later
run_with_auth-Admitted_example = run_with_auth-Admitted (signs_in ∷ []) a_minute_later works_again
