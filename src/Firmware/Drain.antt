-- ===== src/Firmware/Drain.antt =====
-- `drain_spi_output_until_quiet` over a bus that answers: it ends, and its report tells what the
-- reads brought.
use ice40_ultraplus_examples.Base.{
  ℕ, zero, suc, ◌+◌, ◌≤◌, ◌<◌, ◌≡◌, refl, ap, ◌∙◌, ◌⊎◌, inl, inr, true, Option, none, some, List,
  [], ◌∷◌, length, get_or, ltb→lt, Bool-cases, arith, ltb, ◌==◌, if◌then◌else◌,
}
use ice40_ultraplus_examples.Cmd.{done}
use ice40_ultraplus_examples.Cmd.Returns
use ice40_ultraplus_examples.Cmd.Returns.{Returns, returns}
use ice40_ultraplus_examples.Bus.{Bus}
use ice40_ultraplus_examples.Bus.Tries.{Serves}
use ice40_ultraplus_examples.Spi.{Bytes3, has_bit, send_mask, has_answer, spi_read}
use ice40_ultraplus_examples.Spi.Read.{Answered, spi_read-Answered}
use ice40_ultraplus_examples.Firmware.{
  DrainReport, no_report, count_read, drain_loop, drain_spi_output_until_quiet,
}

-- What a read brought: nothing, or an answer with its status.
abbrev pub heard : (rc status : ℕ) → Option ℕ
heard rc status = if rc == 0 then none else some status

-- Reads one behind the other, with what they brought, the latest first.
pub data History {S : Type 0} (bus : Bus S) : S → List (Option ℕ) → S → Type 0 where
  no_read : {s : S} → History bus s [] s
  one_read :
      {s t u : S} {h : List (Option ℕ)} {rc status : ℕ} {val : Bytes3}
      → History bus s h t
      → spi_read bus t ≡ done (rc, val, status) u
      → History bus s (heard rc status ∷ h) u

-- The statuses of the answers, the latest first.
abbrev pub answers_of : List (Option ℕ) → List ℕ
answers_of [] = []
answers_of (none ∷ h) = answers_of h
answers_of (some status ∷ h) = status ∷ answers_of h

-- How many of the latest reads brought nothing.
abbrev pub quiet_run : List (Option ℕ) → ℕ
quiet_run [] = 0
quiet_run (none ∷ h) = suc (quiet_run h)
quiet_run (some status ∷ h) = 0

abbrev pub last_of : List ℕ → ℕ
last_of [] = 0
last_of (x ∷ []) = x
last_of (x ∷ y ∷ ys) = last_of (y ∷ ys)

-- The report of some reads.
abbrev pub report_of : List (Option ℕ) → DrainReport
report_of h = record {
  reads = length h;
  packets = length (answers_of h);
  quiet_reads = quiet_run h;
  first_status = last_of (answers_of h);
  last_status = get_or (answers_of h) 0 0;
}

-- Before each read, fewer than `goal` reads in a row had brought nothing.
abbrev pub Unfinished : (goal : ℕ) → List (Option ℕ) → Type 0
Unfinished goal [] = Unit
Unfinished goal (r ∷ h) = (quiet_run h < goal) × Unfinished goal h

-- Each status is that of an answer.
abbrev pub AllAnswers : List ℕ → Type 0
AllAnswers [] = Unit
AllAnswers (status ∷ more) = (has_bit send_mask status ≡ true) × AllAnswers more

-- How a drain ended.
pub record Drained {S : Type 0} (bus : Bus S) (max_reads goal : ℕ) (s : S) (out : DrainReport)
    (t : S) : Type 0 where
  pub brought : List (Option ℕ)
  pub made : History bus s brought t
  pub report : out ≡ report_of brought
  pub unfinished : Unfinished goal brought
  pub ended :
      (length brought ≡ max_reads) ⊎ ((length brought < max_reads) × (quiet_run brought ≡ goal))
  pub answered : AllAnswers (answers_of brought)

last_of-cons :
    (status : ℕ) (xs : List ℕ)
    → (if length xs == 0 then status else last_of xs) ≡ last_of (status ∷ xs)
last_of-cons status [] = refl
last_of-cons status (x ∷ xs) = ground arith

counted : (n : ℕ) → n + 1 ≡ suc n
counted n = omega arith

count_read-report_of :
    (rc status : ℕ) (h : List (Option ℕ))
    → count_read (report_of h) rc status ≡ report_of (heard rc status ∷ h)
unfolding count_read
count_read-report_of rc status h = elim (Bool-cases (rc == 0)) [
  | inl silent ↦ rw silent λ i. record {
    reads = counted (length h) i;
    packets = length (answers_of h);
    quiet_reads = counted (quiet_run h) i;
    first_status = last_of (answers_of h);
    last_status = get_or (answers_of h) 0 0;
  }
  | inr answer ↦ rw answer λ i. record {
    reads = counted (length h) i;
    packets = counted (length (answers_of h)) i;
    quiet_reads = 0;
    first_status = last_of-cons status (answers_of h) i;
    last_status = status;
  }
]

heard-le :
    (rc status goal : ℕ) (h : List (Option ℕ))
    → quiet_run h < goal
    → quiet_run (heard rc status ∷ h) ≤ goal
heard-le zero status goal h below = below
heard-le (suc rc) status goal h below = ground arith

heard-AllAnswers :
    {S : Type 0} {bus : Bus S} {s t : S} (rc status : ℕ) (val : Bytes3) (h : List (Option ℕ))
    → Answered bus s (rc, val, status) t
    → AllAnswers (answers_of h)
    → AllAnswers (answers_of (heard rc status ∷ h))
unfolding has_answer
heard-AllAnswers rc status val h a all = elim a.outcome [
  | inl (answer, few, found) ↦ rw answer (ap (λ k. has_bit send_mask k) a.status ∙ found, all)
  | inr (silent, limit) ↦ rw silent all
]

module _ {S : Type 0} {bus : Bus S} {Ready : S → Type 0} (serves : Serves bus Ready) where
  drain_loop-Drained :
      (goal left max_reads : ℕ) (h : List (Option ℕ)) (r : DrainReport) (s t : S)
      → Ready t
      → History bus s h t
      → r ≡ report_of h
      → Unfinished goal h
      → quiet_run h ≤ goal
      → AllAnswers (answers_of h)
      → length h + left ≡ max_reads
      → Returns
          (λ out u. Drained bus max_reads goal s out u × Ready u)
          (drain_loop bus goal left r t)
  unfolding drain_loop
  drain_loop-Drained goal zero m h r s t ready made same un le all e = returns (
    record {
      brought = h;
      made = made;
      report = same;
      unfinished = un;
      ended = inl (omega arith);
      answered = all;
    },
    ready,
  )
  drain_loop-Drained goal (suc left) m h r s t ready made same un le all e = rw same (
      Returns.branch_at (ltb (quiet_run h) goal) _ _ t
        (λ more.
          Returns.bind (spi_read-Answered serves t ready) λ (rc, val, status) u eq (a, ready').
            drain_loop-Drained goal left m (heard rc status ∷ h) _ s u ready' (one_read made eq)
              (count_read-report_of rc status h) (ltb→lt (quiet_run h) goal more, un)
              (heard-le rc status goal h (ltb→lt (quiet_run h) goal more))
              (heard-AllAnswers rc status val h a all) (omega arith))
        λ quiet. returns (
          record {
            brought = h;
            made = made;
            report = refl;
            unfinished = un;
            ended = inr (omega arith, ground arith);
            answered = all;
          },
          ready,
        ))

  -- The drain returns after reads whose report it gives: their number, how many brought an answer,
  -- the statuses of the first and of the last answer, and how many of the latest brought nothing.
  -- It made `max_reads` reads, or fewer and the latest `quiet_goal` brought nothing; before each
  -- read, fewer than `quiet_goal` in a row had brought nothing. Each status is that of an answer.
  pub drain-Drained :
      (max_reads quiet_goal : ℕ) (s : S)
      → Ready s
      → Returns
          (λ out t. Drained bus max_reads quiet_goal s out t × Ready t)
          (drain_spi_output_until_quiet bus max_reads quiet_goal s)
  unfolding drain_spi_output_until_quiet
  drain-Drained max_reads quiet_goal s ready =
      drain_loop-Drained quiet_goal max_reads max_reads [] no_report s s ready no_read refl tt
        (omega arith) tt (omega arith)
