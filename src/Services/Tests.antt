-- ===== src/Services/Tests.antt =====
-- Concrete runs of the services.
use teldrive_fork.Base.{
  ◌+◌, ◌≡◌, refl, List, [], ◌∷◌, none, false, Text, empty_map, map_set, text_key, nat_key,
  if◌then◌else◌, ◌==◌,
}
use teldrive_fork.Tgc.Workers.{new_bot_worker, set_with_proxies, next, get_proxy, mark_blocked}
use teldrive_fork.Services.Upload.{
  Environment, uploaded, refused, flood_wait, done, rate_limited, rotate,
}

abbrev two_tokens : List Text
two_tokens = (b'1' ∷ []) ∷ (b'2' ∷ []) ∷ []

-- The first turn is told to wait for 9, the second uploads part 5.
abbrev second_works : Environment
second_works = record {
  client_cache = false;
  live = λ i token. false;
  bot_client = λ i token proxy. none;
  do_upload = λ i token. if i == 1 then refused (flood_wait 9) else uploaded 5;
  clock = λ i j. 0;
  now = λ i. 0;
}

-- Every turn is told to wait.
abbrev all_wait : Environment
all_wait = record {
  client_cache = false;
  live = λ i token. false;
  bot_client = λ i token proxy. none;
  do_upload = λ i token. refused (flood_wait (9 + i));
  clock = λ i j. 1000;
  now = λ i. 0;
}

second_run :
    (rotate second_works 7 two_tokens empty_map (new_bot_worker false) empty_map).0 ≡ done 5
unfolding rotate set_with_proxies new_bot_worker next get_proxy map_set mark_blocked
second_run = refl

all_wait_run :
    (rotate all_wait 7 two_tokens empty_map (new_bot_worker false) empty_map).0 ≡ rate_limited 16
unfolding rotate set_with_proxies new_bot_worker next get_proxy map_set mark_blocked
all_wait_run = refl
