-- ===== src/Tests/Startup.antt =====
-- `main` of comet2_spi_run.c at a small terminal and the slave of Tests/Talk.antt.
use ice40_ultraplus_examples.Base.{
  ℕ, ◌+◌, ◌≡◌, refl, List, [], ◌∷◌, take, arith, true, false, Bool, some, replicate, pos,
}
use ice40_ultraplus_examples.Cmd.{Cmd, pure}
use ice40_ultraplus_examples.Bus.{Heap}
use ice40_ultraplus_examples.Firmware.{Files}
use ice40_ultraplus_examples.Terminal.{Tty, Process, ended}
use ice40_ultraplus_examples.Terminal.Restored.{Works, Restored, AllEnded}
use ice40_ultraplus_examples.Run.Program.{main}
use ice40_ultraplus_examples.Run.Program.Ends.{main-Restored}
use ice40_ultraplus_examples.Tests.Talk.{Talker, talking_bus, clock}
use ice40_ultraplus_examples.Tests.Console.{select_stdin}

-- The attributes are one number; the terminal holds it.
abbrev pub small_tty : Tty ℕ ℕ
small_tty = record {
  isatty = λ t. (true, t);
  tcgetattr = λ t. (some t, t);
  tcsetattr = λ a t. (true, a);
  cfmakeraw = λ a. 0;
  set_isig = λ a. a + 1;
  set_opost = λ a. a + 2;
  zeroed = 0;
}

pub some_injective : (a b : ℕ) → some a ≡ some b → b ≡ a
some_injective a b e = cc e

abbrev pub small_tty-Works : Works small_tty
small_tty-Works = record {
  attrs = λ t. t;
  attrs-isatty = λ t. refl;
  attrs-tcgetattr = λ t. refl;
  got = λ t a e. some_injective t a e;
  set = λ a t e. refl;
  not_set = λ a t e. absurd (ground arith);
  sets_again = λ s t a e. refl;
}

abbrev large_heap : Heap Talker
large_heap = record { malloc = λ n s. (true, s); free = λ s. s }

abbrev word_file : Files Talker
word_file = record {
  fopen = λ path s. (true, s);
  seek_end = λ s. (pos 0, s);
  ftell = λ s. (pos 2, s);
  seek_start = λ s. (pos 0, s);
  fread = λ n s. (take n (0x34 ∷ 0x12 ∷ []), s);
  fclose = λ s. s;
}

abbrev talk_init : Cmd Talker ℕ
talk_init = pure 0

abbrev pub no_number : List ℕ → ℕ × Bool
no_number text = (0, false)

abbrev at_shell : Process Talker ℕ ℕ
at_shell = record {
  world = record { time = 0; left = 14 };
  terminal = 7;
  guard = record { saved_term = 0; raw_mode = false; registered = false };
}

main-Restored_example : AllEnded small_tty-Works (Restored small_tty-Works 7) (
    ended small_tty (
      main small_tty talking_bus large_heap word_file clock select_stdin talk_init no_number 0 5 5
        (replicate 1024 0)
        (0x61 ∷ [])
        []
        false
        at_shell))
main-Restored_example =
    main-Restored small_tty-Works talking_bus large_heap word_file clock select_stdin talk_init
      no_number 0 5 5 (replicate 1024 0) (0x61 ∷ []) [] false at_shell refl
