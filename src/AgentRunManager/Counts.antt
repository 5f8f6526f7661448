-- ===== src/AgentRunManager/Counts.antt =====
-- How the statements on `agent_run_attempt` change the attempts of each run: their numbers, the
-- open ones, the successful ones, and their generations.
use instructional_agent_mvp.Prelude.{
  ℕ, suc, ◌+◌, ◌≤◌, ◌≡◌, refl, Bool, false, Option, none, some, List, [], ◌∷◌, ◌≢◌, arith, update,
  insert, length, count, All, is_none, String,
}
use instructional_agent_mvp.Schema.{Uuid, AttemptOutcome, is_success, Json, AgentRunAttempt}
use instructional_agent_mvp.AgentRunManager.{is_abandoned, abandoned}
use instructional_agent_mvp.AgentRunManager.Lease.{Clock}
use instructional_agent_mvp.AgentRunManager.Attempts.{
  attempts_of, max_number, is_open_attempt, closed,
}

abbrev pub open_count : List AgentRunAttempt → ℕ
open_count = count (λ a. is_none a.outcome)

abbrev pub success_count : List AgentRunAttempt → ℕ
success_count = count (λ a. is_success a.outcome)

-- The attempts are numbered upwards from `k`, in the order of their creation.
abbrev pub Numbered : ℕ → List AgentRunAttempt → Type 0
Numbered k [] = Unit
Numbered k (a ∷ rows) = (a.attempt_number ≡ k) × Numbered (suc k) rows

-- No attempt is of a later generation than `g`, and an open attempt is of generation `g`.
abbrev pub FencedBy : ℕ → Option AttemptOutcome → ℕ → Type 0
FencedBy g none created = created ≡ g
FencedBy g (some _) created = created ≤ g

abbrev pub Fenced : ℕ → List AgentRunAttempt → Type 0
Fenced g = All (λ a. FencedBy g a.outcome a.lease_generation_at_creation)

-- The numbers of the attempts so far end at their count.
pub max_number-length :
    (k : ℕ) (a : AgentRunAttempt) (rows : List AgentRunAttempt)
    → Numbered (suc k) (a ∷ rows)
    → max_number (a ∷ rows) ≡ k + length (a ∷ rows)
max_number-length k a [] h = omega arith
max_number-length k a (b ∷ rows) h = omega (arith, max_number-length (suc k) b rows h.1)

pub max_number-eq-length :
    (rows : List AgentRunAttempt) → Numbered 1 rows → max_number rows ≡ length rows
max_number-eq-length [] h = refl
max_number-eq-length (a ∷ rows) h = omega (arith, max_number-length 0 a rows h)

pub Numbered-insert :
    (k : ℕ) (n : AgentRunAttempt) (rows : List AgentRunAttempt)
    → Numbered k rows
    → n.attempt_number ≡ k + length rows
    → Numbered k (insert n rows)
Numbered-insert k n [] h e = (omega arith, tt)
Numbered-insert k n (a ∷ rows) h e = (h.0, Numbered-insert (suc k) n rows h.1 (omega arith))

pub Numbered-update :
    (k : ℕ) (p : AgentRunAttempt → Bool) (f : AgentRunAttempt → AgentRunAttempt)
    (rows : List AgentRunAttempt)
    → ((a : AgentRunAttempt) → (f a).attempt_number ≡ a.attempt_number)
    → Numbered k rows
    → Numbered k (update p f rows)
Numbered-update k p f [] same h = tt
Numbered-update k p f (a ∷ rows) same h =
    (ground (arith, same a, h.0), Numbered-update (suc k) p f rows same h.1)

module _ (clock : Clock) (i : Uuid) where
  -- A reclaim closes every open attempt of its run, and counts none as a success.
  pub abandon_closes_all :
      (rows : List AgentRunAttempt)
      → (open_count (attempts_of i (update (is_abandoned i) (abandoned clock) rows)) ≡ 0)
        × (success_count (attempts_of i (update (is_abandoned i) (abandoned clock) rows))
            ≡ success_count (attempts_of i rows))
  abandon_closes_all [] = (refl, refl)
  abandon_closes_all (a ∷ rows) = ground (arith, abandon_closes_all rows)

  pub abandon_others :
      (j : Uuid) (rows : List AgentRunAttempt)
      → i ≢ j
      → attempts_of j (update (is_abandoned i) (abandoned clock) rows) ≡ attempts_of j rows
  abandon_others j [] h = refl
  abandon_others j (a ∷ rows) h = ground (arith, abandon_others j rows h)

  -- What was fenced by a generation is fenced by the next one, once it is closed.
  pub abandon-Fenced :
      (g : ℕ) (rows : List AgentRunAttempt)
      → Fenced g (attempts_of i rows)
      → Fenced (g + 1) (attempts_of i (update (is_abandoned i) (abandoned clock) rows))
  abandon-Fenced g [] h = tt
  abandon-Fenced g (a ∷ rows) h = ground (arith, abandon-Fenced g rows)

module _ (started : ℕ) (id : Uuid) (outcome : AttemptOutcome) (detail : Option String)
    (payload : Option Json) where
  abbrev close : List AgentRunAttempt → List AgentRunAttempt
  close = update (is_open_attempt id) (closed started outcome detail payload)

  pub close-Fenced : (g : ℕ) (rows : List AgentRunAttempt) → Fenced g rows → Fenced g (close rows)
  close-Fenced g [] h = tt
  close-Fenced g (a ∷ rows) h = ground (arith, close-Fenced g rows h.1)

  -- Closing opens nothing, and every new success was open.
  pub close_counts :
      (rows : List AgentRunAttempt)
      → (open_count (close rows) ≤ open_count rows)
        × (success_count (close rows) + open_count (close rows)
            ≤ success_count rows + open_count rows)
  close_counts [] = (omega arith, omega arith)
  close_counts (a ∷ rows) = ground (arith, close_counts rows)

  -- An outcome other than success makes no success.
  pub close_failure :
      (rows : List AgentRunAttempt)
      → is_success (some outcome) ≡ false
      → success_count (close rows) ≡ success_count rows
  close_failure [] h = refl
  close_failure (a ∷ rows) h = ground (arith, close_failure rows h)
