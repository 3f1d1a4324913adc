-- ===== src/Tgc/Run.antt =====
-- internal/tgc/run.go: how a client is run with an authorized session. That a bot's session is
-- authorized is remembered for a while, to save the question. Telegram's answers in a call are the
-- call's own.
pub mod Trust
mod Tests
use teldrive_fork.Base.{
  ℕ, ◌+◌, ◌*◌, ◌==◌, ltb, if◌then◌else◌, List, [], ◌∷◌, length, Option, none, some, Bool, true,
  false, not, ◌&&◌, Text, Map, text_key, map_set, map_delete,
}
use teldrive_fork.Services.Failure.{Failed, is_auth_key_unregistered}

-- The answer of `client.Auth().Status`.
pub data Status : Type 0 where
  unknown : Failed → Status
  known : Bool → Status

-- A call: `connect` is the error of `client.Run` before its callback runs, `sign_in` that of
-- `client.Auth().Bot`, `again` the second status, which is false also where it is nil, and `work`
-- what `f` returns. The clock is read at `asked` and at `stored`.
pub record Call : Type 0 where
  pub token : Text
  pub connect : Option Failed
  pub status : Status
  pub sign_in : Option Failed
  pub again : Bool
  pub work : Option Failed
  pub asked : ℕ
  pub stored : ℕ

-- The error that is returned, whether `f` was run, and `autorisesRecemment`.
pub record Done : Type 0 where
  pub error : Option Failed
  pub worked : Bool
  pub trusted : Map Text ℕ

abbrev pub not_authorized : Failed
not_authorized = record {
  text =
      b'n' ∷ b'o' ∷ b't' ∷ b' ' ∷ b'a' ∷ b'u' ∷ b't' ∷ b'h' ∷ b'o' ∷ b'r' ∷ b'i' ∷ b'z' ∷ b'e'
      ∷ b'd' ∷ b'.' ∷ b' ' ∷ b'p' ∷ b'l' ∷ b'e' ∷ b'a' ∷ b's' ∷ b'e' ∷ b' ' ∷ b'l' ∷ b'o' ∷ b'g'
      ∷ b'i' ∷ b'n' ∷ b' ' ∷ b'f' ∷ b'i' ∷ b'r' ∷ b's' ∷ b't' ∷ [];
  rpc_type = none;
  is_sentinel = false;
}

-- `ttlAuth`
abbrev pub ttl_auth : ℕ
ttl_auth = 600 * 1000000000

abbrev pub failed : Failed → Map Text ℕ → Done
failed e m = record { error = some e; worked = false; trusted = m }

module _ (c : Call) where
  abbrev pub is_bot : Bool
  is_bot = not (length c.token == 0)

  -- The call of `f`, and what it says of the session.
  unfoldable pub work_with : Map Text ℕ → Done
  unfolding map_delete is_auth_key_unregistered
  work_with m = record {
    error = c.work;
    worked = true;
    trusted = if is_bot && is_auth_key_unregistered c.work then map_delete c.token m else m;
  }

  -- The trust in a bot, where its session is authorized.
  abbrev pub noted : Bool → Map Text ℕ → Map Text ℕ
  noted authorized m = if is_bot && authorized then map_set c.token c.stored m else m

  abbrev pub signed_in : Option Failed → Map Text ℕ → Done
  signed_in none m = work_with (noted c.again m)
  signed_in (some e) m = failed e m

  abbrev pub with_status : Status → Map Text ℕ → Done
  with_status (unknown e) m = failed e m
  with_status (known true) m = work_with (noted true m)
  with_status (known false) m = if is_bot then signed_in c.sign_in m else failed not_authorized m

  -- time.Since(vu) < ttlAuth
  abbrev pub is_recent : Option ℕ → Bool
  is_recent none = false
  is_recent (some seen) = ltb c.asked (seen + ttl_auth)

  abbrev pub connected : Option Failed → Map Text ℕ → Done
  connected (some e) m = failed e m
  connected none m = if is_bot && is_recent (m c.token) then work_with m else with_status c.status m

  -- `RunWithAuth`
  unfoldable pub run_with_auth : Map Text ℕ → Done
  unfolding work_with map_set
  run_with_auth m = connected c.connect m
