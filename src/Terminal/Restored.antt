-- ===== src/Terminal/Restored.antt =====
-- The terminal gets its attributes back.
use ice40_ultraplus_examples.Base.{
  ℕ, ◌≡◌, refl, sym, ◌∙◌, subst, branch, Bool, true, false, Option, none, some, if◌then◌else◌,
  arith,
}
use ice40_ultraplus_examples.Cmd.{Outcome, done, exited, polling, Cmd, and_then}
use ice40_ultraplus_examples.Terminal.{
  Tty, Process, lift, at_world, restore_terminal, raw_attrs, enter_raw, keep_saved, setup_raw_mode,
  sig_cleanup, at_exit, ended,
}

-- What termios(3) promises of a terminal: the attributes are read and set, a failed call changes
-- nothing, and attributes that were read once can be set again.
pub record Works {T Attrs : Type 0} (tty : Tty T Attrs) : Type 0 where
  pub attrs : T → Attrs
  pub attrs-isatty : (t : T) → attrs (tty.isatty t).1 ≡ attrs t
  pub attrs-tcgetattr : (t : T) → attrs (tty.tcgetattr t).1 ≡ attrs t
  pub got : (t : T) (a : Attrs) → (tty.tcgetattr t).0 ≡ some a → a ≡ attrs t
  pub set : (a : Attrs) (t : T) → (tty.tcsetattr a t).0 ≡ true → attrs (tty.tcsetattr a t).1 ≡ a
  pub not_set :
      (a : Attrs) (t : T) → (tty.tcsetattr a t).0 ≡ false → attrs (tty.tcsetattr a t).1 ≡ attrs t
  pub sets_again :
      (s t : T) (a : Attrs) → (tty.tcgetattr s).0 ≡ some a → (tty.tcsetattr a t).0 ≡ true

contrary : {P : Type 0} (b : Bool) → b ≡ true → b ≡ false → P
contrary b on off = absurd (ground arith)

module _ {S T Attrs : Type 0} {tty : Tty T Attrs} (works : Works tty) where
  open works use {attrs}

  -- In raw mode the attributes `a` are saved, can be set, and will be set at the exit; otherwise
  -- the terminal has them.
  pub data Guarded (a : Attrs) (p : Process S T Attrs) : Type 0 where
    plain : p.guard.raw_mode ≡ false → attrs p.terminal ≡ a → Guarded a p
    raw :
        p.guard.raw_mode ≡ true
        → p.guard.registered ≡ true
        → p.guard.saved_term ≡ a
        → ((t : T) → (tty.tcsetattr a t).0 ≡ true)
        → Guarded a p

  pub record Restored (a : Attrs) (p : Process S T Attrs) : Type 0 where
    pub cooked : p.guard.raw_mode ≡ false
    pub back : attrs p.terminal ≡ a

  pub restore_terminal-Restored :
      (a : Attrs) (p : Process S T Attrs) → Guarded a p → Restored a (restore_terminal tty p)
  unfolding restore_terminal
  restore_terminal-Restored a p g =
      branch (λ k. Restored a k) p.guard.raw_mode (λ on. set_back g on) (λ off. still g off)
    where
      set_back :
          Guarded a p
          → p.guard.raw_mode ≡ true
          → Restored a (record p {
            terminal = (tty.tcsetattr p.guard.saved_term p.terminal).1;
            guard = record p.guard { raw_mode = false };
          })
      set_back (plain off same) on = contrary p.guard.raw_mode on off
      set_back (raw _ r saved sets) on = record {
        cooked = refl;
        back =
            subst (λ k. attrs (tty.tcsetattr k p.terminal).1 ≡ a) (sym saved)
              (works.set a p.terminal (sets p.terminal));
      }

      still : Guarded a p → p.guard.raw_mode ≡ false → Restored a p
      still (plain off same) _ = record { cooked = off; back = same }
      still (raw on r saved sets) off = contrary p.guard.raw_mode on off

  pub Restored-Guarded : {a : Attrs} {p : Process S T Attrs} → Restored a p → Guarded a p
  Restored-Guarded r = plain r.cooked r.back

  pub at_exit-Restored :
      (a : Attrs) (p : Process S T Attrs) → Guarded a p → Restored a (at_exit tty p)
  unfolding at_exit
  at_exit-Restored a p g =
      branch (λ k. Restored a k) p.guard.registered (λ r. restore_terminal-Restored a p g)
        (λ n. unregistered g n)
    where
      unregistered : Guarded a p → p.guard.registered ≡ false → Restored a p
      unregistered (plain off same) n = record { cooked = off; back = same }
      unregistered (raw on r saved sets) n = contrary p.guard.registered r n

  pub at_world-Guarded :
      (a : Attrs) (p : Process S T Attrs) (s : S) → Guarded a p → Guarded a (record p { world = s })
  at_world-Guarded a p s (plain off same) = plain off same
  at_world-Guarded a p s (raw on r saved sets) = raw on r saved sets

  enter_raw-Guarded :
      (keeps : Bool) (saved : Attrs) (p : Process S T Attrs)
      → p.guard.raw_mode ≡ false
      → attrs p.terminal ≡ saved
      → ((t : T) → (tty.tcsetattr saved t).0 ≡ true)
      → Guarded saved (enter_raw tty keeps saved p)
  unfolding enter_raw
  enter_raw-Guarded keeps saved p off same sets =
      let made = raw_attrs tty keeps saved in
      let out = tty.tcsetattr made p.terminal in
      branch (λ k. Guarded saved (record p { terminal = out.1; guard = k })) out.0
        {x = record { saved_term = saved; raw_mode = true; registered = true }}
        {y = record p.guard { saved_term = saved }} (λ ok. raw refl refl refl sets)
        (λ failed. plain off (works.not_set made p.terminal failed ∙ same))

  -- From a terminal that is not in raw mode.
  pub setup_raw_mode-Guarded :
      (keeps : Bool) (p : Process S T Attrs)
      → p.guard.raw_mode ≡ false
      → Guarded (attrs p.terminal) (setup_raw_mode tty keeps p)
  unfolding setup_raw_mode
  setup_raw_mode-Guarded keeps p off =
      let t = (tty.isatty p.terminal).1 in
      let u = (tty.tcgetattr t).1 in
      branch (λ k. Guarded (attrs p.terminal) k) (tty.isatty p.terminal).0
        (λ is_tty. behind (tty.tcgetattr t).0 refl)
        (λ not_tty. plain off (works.attrs-isatty p.terminal))
    where
      behind :
          (saved : Option Attrs)
          → (tty.tcgetattr (tty.isatty p.terminal).1).0 ≡ saved
          → Guarded (attrs p.terminal) (
              keep_saved tty keeps saved
                (record p { terminal = (tty.tcgetattr (tty.isatty p.terminal).1).1 }))
      behind none e =
          plain off
            (works.attrs-tcgetattr (tty.isatty p.terminal).1 ∙ works.attrs-isatty p.terminal)
      behind (some saved) e =
          let t = (tty.isatty p.terminal).1 in
          let read : saved ≡ attrs t = works.got t saved e in
          subst
            (λ k.
              Guarded k (enter_raw tty keeps saved (record p { terminal = (tty.tcgetattr t).1 })))
            (read ∙ works.attrs-isatty p.terminal)
            (enter_raw-Guarded keeps saved (record p { terminal = (tty.tcgetattr t).1 }) off
              (works.attrs-tcgetattr t ∙ sym read) (λ v. works.sets_again t v saved e))

  -- From a terminal that keeps its promises and is not in raw mode: a signal behind the setup, at
  -- any moment of what the program does outside the terminal, ends it with the given status and
  -- gives the terminal the attributes that it had at first.
  pub sig_cleanup-Restored :
      (keeps : Bool) (status : ℕ) (p : Process S T Attrs) (s : S)
      → p.guard.raw_mode ≡ false
      → let out = sig_cleanup tty status (record (setup_raw_mode tty keeps p) { world = s }) in
        (out.0 ≡ status) × Restored (attrs p.terminal) out.1
  unfolding sig_cleanup
  sig_cleanup-Restored keeps status p s off = (
    refl,
    restore_terminal-Restored (attrs p.terminal) (record (setup_raw_mode tty keeps p) { world = s })
        (at_world-Guarded (attrs p.terminal) (setup_raw_mode tty keeps p) s
          (setup_raw_mode-Guarded keeps p off)),
  )

  -- A property of every end of an outcome, and of the process there.
  pub data Ends {A : Type 0} (P : Process S T Attrs → Type 0)
      : Outcome (Process S T Attrs) A → Type 0 where
    by_value : {x : A} {p : Process S T Attrs} → P p → Ends P (done x p)
    by_exit : {code : ℕ} {p : Process S T Attrs} → P p → Ends P (exited code p)
    unended : Ends P polling

  -- A test between two commands.
  pub Ends-test :
      {A : Type 0} {P : Process S T Attrs → Type 0} (b : Bool) (f g : Cmd (Process S T Attrs) A)
      (p : Process S T Attrs)
      → Ends P (f p)
      → Ends P (g p)
      → Ends P ((if b then f else g) p)
  Ends-test true f g p x y = x
  Ends-test false f g p x y = y

  -- A command on the world, and what follows.
  pub lift-Ends :
      {A B : Type 0} {P : Process S T Attrs → Type 0} (m : Cmd S A)
      (k : A → Cmd (Process S T Attrs) B) (p : Process S T Attrs)
      → ((s : S) → P (record p { world = s }))
      → ((x : A) (s : S) → Ends P (k x (record p { world = s })))
      → Ends P (and_then (lift m p) k)
  unfolding lift
  lift-Ends {A} {P} m k p kept next = after (m p.world)
    where
      after : (out : Outcome S A) → Ends P (and_then (at_world p out) k)
      after (done x s) = next x s
      after (exited code s) = by_exit (kept s)
      after polling = unended

  -- However the outcome ends the process, `P` holds of the process that is left.
  abbrev pub AllEnded : (P : Process S T Attrs → Type 0) → Option (ℕ × Process S T Attrs) → Type 0
  AllEnded P none = Unit
  AllEnded P (some (status, p)) = P p

  pub ended-Restored :
      {B : Type 0} (a : Attrs) (out : Outcome (Process S T Attrs) (ℕ × B))
      → Ends (Guarded a) out
      → AllEnded (Restored a) (ended tty out)
  unfolding ended
  ended-Restored a (done x p) (by_value g) = at_exit-Restored a p g
  ended-Restored a (exited c p) (by_exit g) = at_exit-Restored a p g
  ended-Restored a polling unended = tt
