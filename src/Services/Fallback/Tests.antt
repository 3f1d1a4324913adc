-- ===== src/Services/Fallback/Tests.antt =====
-- Three bots, of which the first streams until its session is refused.
use teldrive_fork.Base.{
  ℕ, zero, suc, ◌≡◌, refl, List, [], ◌∷◌, Option, none, some, false, Bool, Text, empty_map,
  text_key, map_set, if◌then◌else◌,
}
use teldrive_fork.Tgc.AuthRecovery.{split}
use teldrive_fork.Retry.{contains, has_prefix}
use teldrive_fork.Services.Bots.{Client, live, bot, user_session}
use teldrive_fork.Services.Failure.{
  Failed, is_auth_key_unregistered, is_message_ids_empty, is_file_parts_mismatch,
  auth_key_unregistered,
}
use teldrive_fork.Services.Fallback.{Environment, serve}
use teldrive_fork.Services.Fallback.Ends.{Ends, serve-Ends}

abbrev tokens : List Text
tokens = (b'1' ∷ []) ∷ (b'2' ∷ []) ∷ (b'3' ∷ []) ∷ []

abbrev refused : Failed
refused = record { text = auth_key_unregistered; rpc_type = none; is_sentinel = false }

abbrev not_running : Failed
not_running = record { text = b'x' ∷ []; rpc_type = none; is_sentinel = false }

-- The first stream is refused; another one works, if its client is run.
abbrev streams : ℕ → Client → Bool → Option Failed
streams zero c is_live = some refused
streams (suc i) c is_live = if is_live then some not_running else none

abbrev second_offline : Environment
second_offline = record {
  stream = streams;
  bot_client = λ i token proxy. if text_key.same token (b'2' ∷ []) then some not_running else none;
  user_client = none;
  failed_at = 0;
  now = λ i. 0;
  clock = λ i. 0;
}

-- The second bot cannot be connected, so the third streams.
third_streams : (serve second_offline empty_map tokens (bot (b'1' ∷ [])) empty_map).attempts ≡ (
    record { client = bot (b'1' ∷ []); result = some refused }
    ∷ (record { client = bot (b'3' ∷ []); result = none } ∷ []))
unfolding serve split contains map_set has_prefix is_message_ids_empty is_file_parts_mismatch
    is_auth_key_unregistered
third_streams = refl

-- Behind a live client the new client of the third bot counts as live too, and is not run.
not_run :
    (serve second_offline empty_map tokens (live (b'1' ∷ [])) empty_map).error ≡ some not_running
unfolding serve split contains map_set has_prefix is_message_ids_empty is_file_parts_mismatch
    is_auth_key_unregistered
not_run = refl

abbrev all_refused : Environment
all_refused = record second_offline { stream = λ i c is_live. some refused }

user_last : (serve all_refused empty_map tokens (bot (b'1' ∷ [])) empty_map).attempts ≡ (
    record { client = bot (b'1' ∷ []); result = some refused }
    ∷ (record { client = bot (b'3' ∷ []); result = some refused }
        ∷ (record { client = user_session; result = some refused } ∷ [])))
unfolding serve split contains map_set has_prefix is_message_ids_empty is_file_parts_mismatch
    is_auth_key_unregistered
user_last = refl

serve-Ends_example :
    Ends second_offline empty_map tokens
      (bot (b'1' ∷ []))
      empty_map
      (serve second_offline empty_map tokens (bot (b'1' ∷ [])) empty_map)
serve-Ends_example = serve-Ends second_offline empty_map tokens (bot (b'1' ∷ [])) empty_map
