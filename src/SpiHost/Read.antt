-- ===== src/SpiHost/Read.antt =====
-- `spi_read` of spi/spi_host/spi_lib.c over a bus that answers.
use ice40_ultraplus_examples.Base.{ℕ, ◌<◌, ◌≡◌, refl, ◌⊎◌, true, List, arith, get_or}
use ice40_ultraplus_examples.Cmd.Returns
use ice40_ultraplus_examples.Cmd.Returns.{Returns, returns}
use ice40_ultraplus_examples.Bus.{Bus}
use ice40_ultraplus_examples.Bus.Tries.{Serves, Tried, retry-Tried, code_of}
use ice40_ultraplus_examples.Spi.{Bytes3, nop_command, has_answer, poll}
use ice40_ultraplus_examples.Spi.Read.{Good, poll-Good}
use ice40_ultraplus_examples.SpiHost.{read_limit, spi_read}

-- How a call ended: after some polls without an answer, with a last reply, whose bytes 1 to 3 it
-- hands out. It reports an answer exactly if one of the first 999 replies was one.
pub record Polled {S : Type 0} (bus : Bus S) (s : S) (out : ℕ × Bytes3 × ℕ) (t : S) : Type 0 where
  pub reply : List ℕ
  pub rounds : ℕ
  pub tried : Tried (poll bus) has_answer read_limit nop_command s (reply, rounds) t
  pub value : out.1 ≡ (get_or reply 1 0, get_or reply 2 0, get_or reply 3 0)
  pub status : out.2 ≡ get_or reply 0 0
  pub outcome :
      ((out.0 ≡ 1) × (rounds < read_limit) × (has_answer reply ≡ true))
      ⊎ ((out.0 ≡ 0) × (rounds ≡ read_limit))

module _ {S : Type 0} {bus : Bus S} {Ready : S → Type 0} (serves : Serves bus Ready) where
  -- From a ready bus the older `spi_read` returns with the bus ready again, as `Polled` describes.
  pub spi_read-Polled :
      (s : S) → Ready s → Returns (λ out t. Polled bus s out t × Ready t) (spi_read bus s)
  unfolding spi_read Good
  spi_read-Polled s r =
      Returns.bind
        (retry-Tried (poll bus) has_answer (Good serves) (poll-Good serves) read_limit nop_command s
          (refl, r) (omega arith))
        λ (reply, n) t e (tried, good). returns (
          record {
            reply = reply;
            rounds = n;
            tried = tried;
            value = refl;
            status = refl;
            outcome = code_of 1 0 n read_limit (has_answer reply) tried.bound tried.stopped;
          },
          good.1,
        )
