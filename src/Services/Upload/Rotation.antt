-- ===== src/Services/Upload/Rotation.antt =====
-- The rotation of the bots ends, and what it answers has a cause.
use teldrive_fork.Base.{ℕ, ◌≤◌, ◌<◌, ◌≡◌, ◌≢◌, List, [], ◌∷◌, none, some, ◌⊎◌, Text, arith}
use teldrive_fork.Tgc.Workers.Invariant.{IsValid}
use teldrive_fork.Services.Upload.{
  Error, upload_failed, flood_wait, Upload, uploaded, refused, Environment, State, Outcome, done,
  failed, rate_limited, Verdict, stop, go_on, make_client,
}

unfoldable pub Absent : Text → List Text → Type 0
Absent token [] = Unit
Absent token (t ∷ ts) = (t ≢ token) × Absent token ts

-- No token was tried twice.
unfoldable pub Distinct : List Text → Type 0
unfolding Absent
Distinct [] = Unit
Distinct (t ∷ ts) = Absent t ts × Distinct ts

module _ (env : Environment) where
  -- A bot got this error, from making its client or from the upload.
  pub data Refused (e : Error) : Type 0 where
    by_upload : (i : ℕ) (token : Text) → env.do_upload i token ≡ refused e → Refused e
    by_client : (i : ℕ) (token proxy : Text) → make_client env i token proxy ≡ some e → Refused e

  -- What stands behind an answer of the handler, after so many bots were tried.
  pub data Justified (attempts : ℕ) : Outcome → Type 0 where
    by_success :
        (i : ℕ) (token : Text) (part : ℕ)
        → env.do_upload i token ≡ uploaded part
        → Justified attempts (done part)
    by_error : (e : Error) → Refused e → Justified attempts (failed e)
    by_no_bot : attempts ≡ 0 → Justified attempts (failed upload_failed)
    by_wait :
        (wait : ℕ) → 0 < wait → Refused (flood_wait wait) → Justified attempts (rate_limited wait)

  pub record Counts (turns : ℕ) (s : State) : Type 0 where
    pub bounded : s.turns ≤ turns
    pub fewer : s.attempts ≤ s.turns
    pub distinct : Distinct s.tried

  pub record Fine (turns : ℕ) (s : State) : Type 0 where
    pub counts : Counts turns s
    pub valid : IsValid s.worker
    pub wait : (s.min_wait ≡ 0) ⊎ Refused (flood_wait s.min_wait)
    pub error : (e : Error) → s.last_error ≡ some e → Refused e

  -- Without an error so far no bot was tried.
  abbrev pub Going : ℕ → State → Type 0
  Going turns s = Fine turns s × (s.last_error ≡ none → s.attempts ≡ 0)

  abbrev pub Ok : ℕ → Verdict → Type 0
  Ok turns (stop o s) = Justified s.attempts o × Counts turns s
  Ok turns (go_on s) = Going turns s

  weaker : (turns more : ℕ) (s : State) → turns ≤ more → Counts turns s → Counts more s
  weaker turns more s h c = record {
    bounded = omega (arith, c.bounded);
    fewer = c.fewer;
    distinct = c.distinct;
  }

  Fine-weaker : (turns more : ℕ) (s : State) → turns ≤ more → Fine turns s → Fine more s
  Fine-weaker turns more s h v = record {
    counts = weaker turns more s h v.counts;
    valid = v.valid;
    wait = v.wait;
    error = v.error;
  }

  Ok-weaker : (turns more : ℕ) (o : Verdict) → turns ≤ more → Ok turns o → Ok more o
  Ok-weaker turns more (stop o s) h (j, c) = (j, weaker turns more s h c)
  Ok-weaker turns more (go_on s) h (v, u) = (Fine-weaker turns more s h v, u)

  abbrev pub Answered : ℕ → Outcome × State → Type 0
  Answered turns out = Justified out.1.attempts out.0 × Counts turns out.1
