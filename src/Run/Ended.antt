-- ===== src/Run/Ended.antt =====
-- How the loop of comet2_spi_run.c ends: its rounds, what they print, and why they are over.
use ice40_ultraplus_examples.Base.{
  ℕ, ◌≤◌, ◌≡◌, refl, sym, subst, ap, ap₂, ◌∙◌, ◌⊎◌, inl, inr, Bool, true, false, Option, List, [],
  ◌∷◌, ◌++◌, ◌&&◌, Bool-cases, ℤ, pos, negsuc, append_assoc, append-nil,
}
use ice40_ultraplus_examples.Cmd.{done}
use ice40_ultraplus_examples.Bus.{Bus}
use ice40_ultraplus_examples.Spi.{Bytes3}
use ice40_ultraplus_examples.Input.{Source}
use ice40_ultraplus_examples.Loader.Slave.{Later, Later-trans}
use ice40_ultraplus_examples.Run.{no_text, is_interactive, check_time}
use ice40_ultraplus_examples.Run.Console.{Console, waiting}
use ice40_ultraplus_examples.Run.Clock.{Checked}
use ice40_ultraplus_examples.Run.Rounds.{Round, Rounded, shown_by}

-- What the rounds print outside raw mode.
unfoldable pub shown_all : List (Option Bytes3) → List ℕ
shown_all [] = []
shown_all (read ∷ reads) = shown_by read ++ shown_all reads

pub is_interactive-same :
    (s t : Source) → t.text ≡ s.text → t.raw_mode ≡ s.raw_mode → is_interactive t ≡ is_interactive s
unfolding is_interactive
is_interactive-same s t text raw = ap₂ (λ r k. r && no_text k) raw text

module _ {S : Type 0} {bus : Bus S} {now_ms : S → ℕ × S} {select_stdin : ℕ → S → ℤ × S}
    {Ready : S → Type 0} (console : Console bus now_ms select_stdin Ready) (idle drain patience : ℕ)
    (a : idle ≤ patience) (b : drain ≤ patience) where
  open console use {slave}
  open slave use {micros, answers}

  -- A run of the loop: what its rounds read, in order, and how it ends.
  pub data Ran (interactive : Bool)
      : (deadline : ℕ) → Source → S → List (Option Bytes3) → ℤ × Source → S → Type 0 where
    asked :
        {deadline : ℕ} {src : Source} {s : S}
        → src.exit_requested ≡ true
        → Ran interactive deadline src s [] (pos 0, src) s
    late :
        {deadline held : ℕ} {src : Source} {s t : S}
        → check_time bus now_ms select_stdin idle drain interactive deadline src s
          ≡ done (held, true) t
        → Ran interactive deadline src s [] (pos 0, src) t
    more :
        {deadline held : ℕ} {src : Source} {s t u w : S} {next : Bool × ℕ × Source}
        {read : Option Bytes3} {reads : List (Option Bytes3)} {out : ℤ × Source}
        → check_time bus now_ms select_stdin idle drain interactive deadline src s
          ≡ done (held, false) t
        → Round console idle drain patience a b held src t next u read
        → next.0 ≡ true
        → Ran interactive next.1 next.2 u reads out w
        → Ran interactive deadline src s (read ∷ reads) out w
    broken :
        {deadline held : ℕ} {src : Source} {s t u : S} {next : Bool × ℕ × Source}
        {read : Option Bytes3}
        → check_time bus now_ms select_stdin idle drain interactive deadline src s
          ≡ done (held, false) t
        → Round console idle drain patience a b held src t next u read
        → next.0 ≡ false
        → Ran interactive deadline src s (read ∷ []) (negsuc 0, next.2) u

  -- Why the loop gave 0: the user asked for it, or there is no user to wait for, or no time was given.
  abbrev pub Over : Source → Type 0
  Over src = (src.exit_requested ≡ true) ⊎ ((waiting src ≡ false) ⊎ (idle ≡ 0))

  pub record Ended (deadline : ℕ) (src : Source) (s : S) (out : ℤ × Source) (t : S) : Type 0 where
    pub code : ((out.0 ≡ pos 0) × Over out.1) ⊎ (out.0 ≡ negsuc 0)
    pub reads : List (Option Bytes3)
    pub ran : Ran (is_interactive src) deadline src s reads out t
    pub later : Later slave s t
    pub raw_mode : out.1.raw_mode ≡ src.raw_mode
    pub printed : src.raw_mode ≡ false → out.1.echoed ≡ src.echoed ++ shown_all reads

  pub Over-late :
      {deadline held : ℕ} {src : Source} {s t : S}
      → Checked console idle drain patience a b deadline src s (held, true) t
      → Over src
  Over-late {src} c = elim (Bool-cases (waiting src)) [
    | inl w ↦ inr (inr (c.late refl w))
    | inr n ↦ inr (inl n)
  ]

  pub Ended-now :
      {deadline : ℕ} {src : Source} {s t : S}
      → Over src
      → Later slave s t
      → Ran (is_interactive src) deadline src s [] (pos 0, src) t
      → Ended deadline src s (pos 0, src) t
  unfolding shown_all
  Ended-now {src} over later ran = record {
    code = inl (refl, over);
    reads = [];
    ran = ran;
    later = later;
    raw_mode = refl;
    printed = λ cooked. sym (append-nil src.echoed);
  }

  pub Ended-broken :
      {deadline held : ℕ} {src : Source} {s t u : S} {next : Bool × ℕ × Source}
      → check_time bus now_ms select_stdin idle drain (is_interactive src) deadline src s
        ≡ done (held, false) t
      → Checked console idle drain patience a b deadline src s (held, false) t
      → Rounded console idle drain patience a b held src t next u
      → next.0 ≡ false
      → Ended deadline src s (negsuc 0, next.2) u
  unfolding shown_all
  Ended-broken {src} {next} e c r stop = record {
    code = inr refl;
    reads = r.read ∷ [];
    ran = broken e r.is_round stop;
    later = Later-trans slave c.later r.handled.later;
    raw_mode = r.handled.raw_mode;
    printed = λ cooked.
        r.handled.printed cooked ∙ ap (λ k. src.echoed ++ k) (sym (append-nil (shown_by r.read)));
  }

  pub Ended-more :
      {deadline held : ℕ} {src : Source} {s t u w : S} {next : Bool × ℕ × Source} {out : ℤ × Source}
      → check_time bus now_ms select_stdin idle drain (is_interactive src) deadline src s
        ≡ done (held, false) t
      → Checked console idle drain patience a b deadline src s (held, false) t
      → Rounded console idle drain patience a b held src t next u
      → next.0 ≡ true
      → Ended next.1 next.2 u out w
      → Ended deadline src s out w
  unfolding shown_all
  Ended-more {src} {u} {w} {next} {out} e c r go rest =
      let same = is_interactive-same src next.2 r.handled.text r.handled.raw_mode in
      record {
        code = rest.code;
        reads = r.read ∷ rest.reads;
        ran =
            more e r.is_round go
              (subst (λ k. Ran k next.1 next.2 u rest.reads out w) same rest.ran);
        later = Later-trans slave c.later (Later-trans slave r.handled.later rest.later);
        raw_mode = rest.raw_mode ∙ r.handled.raw_mode;
        printed = λ cooked.
            rest.printed (r.handled.raw_mode ∙ cooked)
            ∙ ap (λ k. k ++ shown_all rest.reads) (r.handled.printed cooked)
            ∙ append_assoc src.echoed (shown_by r.read) (shown_all rest.reads);
      }
