-- ===== src/Loader/Settled.antt =====
-- A load at a slave that has only so many answers to give.
use ice40_ultraplus_examples.Base.{ℕ, ◌≤◌, ◌<◌, ◌≡◌, List, ◌++◌, length, ℤ, pos, some, arith}
use ice40_ultraplus_examples.Cmd.{done}
use ice40_ultraplus_examples.Cmd.Returns
use ice40_ultraplus_examples.Cmd.Returns.{Returns, returns}
use ice40_ultraplus_examples.Bus.{Bus, Heap}
use ice40_ultraplus_examples.Spi.{packet}
use ice40_ultraplus_examples.Firmware.{Files, cmd_init, cmd_start_cpu, read_firmware_file}
use ice40_ultraplus_examples.Firmware.Image.{IsImage}
use ice40_ultraplus_examples.Firmware.Load.{Mode, no_param, load_and_start_comet_firmware}
use ice40_ultraplus_examples.Firmware.Load.Sequence.{load-sequence}
use ice40_ultraplus_examples.Firmware.Wire.{packets, Takes}
use ice40_ultraplus_examples.Loader.Slave.{Slave}

-- What a load puts on the bus, behind what the drain shifts out.
abbrev pub Loaded : {S : Type 0} → (S → List ℕ) → (firmware : List ℕ) → S → S → Type 0
Loaded shifted firmware r t =
    (drained : List ℕ) × (shifted t
      ≡ (shifted r ++ drained)
        ++ packet cmd_init no_param
        ++ packets firmware
        ++ packet cmd_start_cpu no_param)

module _ {S : Type 0} {bus : Bus S} {heap : Heap S} {now_ms : S → ℕ × S} {Ready : S → Type 0}
    (slave : Slave bus now_ms Ready) {shifted : S → List ℕ} (takes : Takes bus heap Ready shifted)
    (answers-malloc : (n : ℕ) (s : S) → slave.answers (heap.malloc n s).1 ≤ slave.answers s)
    (answers-free : (s : S) → slave.answers (heap.free s) ≤ slave.answers s) where
  open slave use {answers}

  -- Ready, with at most `most` answers to come.
  abbrev Settled : (most : ℕ) → S → Type 0
  Settled most s = Ready s × (answers s ≤ most)

  Takes-Settled : (most : ℕ) → Takes bus heap (Settled most) shifted
  Takes-Settled most = record {
    serves = record {
      answers = λ bytes s (r, few) some_bytes small.
          let (out, t, e, (len, r')) =
            Returns.value (takes.serves.answers bytes s r some_bytes small) in
          rw e (returns (len, (r', omega (arith, slave.answers-xfer bytes out s t e, few))));
      rests =
          λ n s (r, few). (takes.serves.rests n s r, omega (arith, slave.answers-usleep n s, few));
    };
    taken = λ bytes out s t j (r, few) e h. takes.taken bytes out s t j r e h;
    shifted-xfer = takes.shifted-xfer;
    shifted-malloc = takes.shifted-malloc;
    shifted-free = takes.shifted-free;
    quiet = record {
      after_malloc =
          λ n s (r, few). (takes.quiet.after_malloc n s r, omega (arith, answers-malloc n s, few));
      after_free = λ s (r, few). (takes.quiet.after_free s r, omega (arith, answers-free s, few));
    };
    memory = takes.memory;
    shifted-usleep = takes.shifted-usleep;
  }

  -- Where a load gets, with what its caller needs for the loop behind it.
  pub record LoadsTo (firmware : List ℕ) (r : S) (out : ℤ) (t : S) : Type 0 where
    pub succeeded : out ≡ pos 0
    pub wire : Loaded shifted firmware r t
    pub ready : Ready t
    pub few : answers t ≤ answers r

  pub load-LoadsTo :
      (files : Files S) (past fuel : ℕ) (mode : Mode) (path firmware : List ℕ) (s r : S)
      → read_firmware_file heap files path s ≡ done (some firmware) r
      → Ready r
      → IsImage firmware
      → length firmware < fuel
      → Returns
          (LoadsTo firmware r)
          (load_and_start_comet_firmware bus heap files past fuel mode path s)
  load-LoadsTo files past fuel mode path firmware s r image ready well short =
      Returns.weaken
        (load-sequence (Takes-Settled (answers r)) files past fuel mode path firmware s r image
          (ready, omega arith) well short)
        λ out t (succeeded, wire, (ready', few)). record {
          succeeded = succeeded;
          wire = wire;
          ready = ready';
          few = few;
        }
