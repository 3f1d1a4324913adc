-- ===== src/Services/Bots/Tests.antt =====
-- Two bots, of which the first is blocked.
use teldrive_fork.Base.{
  ◌≡◌, refl, List, [], ◌∷◌, length, none, some, false, true, Text, empty_map, map_set, text_key,
  nat_key,
}
use teldrive_fork.Tgc.Workers.{new_bot_worker, set_with_proxies, next}
use teldrive_fork.Tgc.Workers.Invariant.{new_bot_worker-IsValid}
use teldrive_fork.Tgc.AuthRecovery.{get_available_bots, split}
use teldrive_fork.Services.Failure.{
  Failed, is_auth_key_unregistered, is_file_parts_mismatch, is_message_ids_empty, is_proxy_error,
  file_parts_mismatch, auth_key_unregistered,
}
use teldrive_fork.Services.Bots.{Environment, user_session, Bots, choose}
use teldrive_fork.Services.Bots.Choice.{Chosen, choose-Chosen}
use teldrive_fork.Retry.{contains_any, has_prefix}

abbrev failure : Text → Failed
failure text = record { text = text; rpc_type = none; is_sentinel = false }

kinds :
    (is_auth_key_unregistered (some (failure auth_key_unregistered)) ≡ true)
    × (is_file_parts_mismatch (some (failure (b' ' ∷ file_parts_mismatch))) ≡ true)
    × (is_message_ids_empty (some (failure file_parts_mismatch)) ≡ false)
    × (is_proxy_error (some (failure (b'P' ∷ b'r' ∷ b'o' ∷ b'x' ∷ b'y' ∷ []))) ≡ true)
unfolding is_auth_key_unregistered is_file_parts_mismatch is_message_ids_empty is_proxy_error
    contains_any has_prefix
kinds = (refl, refl, refl, refl)

abbrev tokens : List Text
tokens = (b'1' ∷ []) ∷ (b'2' ∷ []) ∷ []

abbrev all_work : Environment
all_work = record {
  disable_stream_bots = false;
  client_cache = false;
  live_client = λ i token proxy. none;
  bot_client = λ i token proxy. none;
  user_client = none;
  next_clock = λ i j. 0;
  now = λ i. 0;
}

abbrev first_blocked : Bots
first_blocked = record { worker = new_bot_worker false; blocks = map_set (b'1' ∷ []) 9 empty_map }

-- One bot is not blocked, so there is one turn; it is spent on the blocked bot, and the user's
-- session streams although the other bot works.
turn_spent : (choose all_work (λ i. 0) tokens empty_map 7 first_blocked).0 ≡ user_session
unfolding choose new_bot_worker map_set next split
turn_spent = refl

choose-Chosen_example :
    Chosen all_work 7
      (record first_blocked { worker = set_with_proxies tokens empty_map 7 first_blocked.worker })
      tokens
      (length (get_available_bots (λ i. 0) tokens first_blocked.blocks))
      (choose all_work (λ i. 0) tokens empty_map 7 first_blocked).0
choose-Chosen_example =
    choose-Chosen all_work (λ i. 0) tokens empty_map 7 first_blocked (new_bot_worker-IsValid false)
