-- ===== src/Lib.antt =====
-- The host programs of the iCE40 UltraPlus examples, in C: the SPI library, the loader and the
-- runner of the COMET II computer, and the firmware of the RISC-V example; and the CPU of the
-- COMET II with its main memory and its test bench.
--
-- The parts, from the cable upwards:
--
-- Ftdi models comet2/host_server/spi_lib.c from `send_byte` to `spi_init`: the bytes for the MPSSE
--   engine of the FTDI chip. libftdi and `usleep` are the parameters `Device` and `Setup`.
--   Ftdi/Engine says what a working engine does, Ftdi/Port makes the layer a bus.
-- Bus is the interface between the layers: a full duplex transfer and a pause. Its loop `retry` is
--   the do-while of `spi_send` and `spi_read`.
-- Spi models `spi_send`, `spi_read` and `spi_send_batch_packets` over a bus.
-- Firmware models the loader that comet2_spi_run.c and comet2_spi_loader.c share:
--   `read_firmware_file`, the drain, both ways to send an image and
--   `load_and_start_comet_firmware`. The calls of stdio and malloc are parameters.
-- SpiHost and SpiHw model the libraries of spi/spi_host and spi_hw/spi_host: what reads as in the
--   comet2 library is a name for it, the rest is defined there. Their child
--   Program is `main` of the same folder.
-- Input models the line editor and the character sources of the two programs. Its state is
--   `struct input_source`; stdin is the list of the bytes to come, and EOF is its end.
-- Loader models comet2/host_server/comet2_spi_loader.c: names for what it shares, the capture
--   buffer and `run_io_loop`. Loader/Slave says how time passes and the FPGA answers.
-- Run models the rest of comet2/host_server/comet2_spi_run.c: `stdin_poll_char` and `run_io_loop`
--   over the parameters `now_ms` and `select_stdin`; what the program writes to stdout goes to
--   `echoed` of the source. Run/Console says what the loop relies on.
-- Time models `now_ms` of the two programs over `gettimeofday`. Terminal models the raw mode, the
--   signal handlers and what `atexit` does, with the calls of termios as the parameter `Tty`: a
--   process has a terminal beside the world of its other calls.
-- Startup is what the two `main` functions share; Run/Program and Loader/Program are they.
--   Loader/Summary models `print_capture_summary`, as the items that it prints.
-- Options models `parse_args` of the two programs; what getopt_long returns is a list, strtoul a
--   parameter.
-- RiscvHost models riscv/host_server/main.c over SpiHost: the arguments, the load and the commands.
-- Uart models riscv/host_server/firmware/uart_echo.c and uart_tx_test.c; the registers are a
--   parameter. `Works` of Uart/Echo says what they do, and promises nothing of a byte that is written
--   while the transmitter is busy.
-- Riscv models riscv/host_server/firmware/main.c: the variables of `main` are `Locals`, the memory
--   mapped registers are a parameter, and `main_round` is one round of the endless loop. Riscv/Board
--   says what the firmware relies on of the registers, and has the table of the services.
-- Comet models comet2/comet2_cpu/comet2_cpu.v: Comet/Codes and Comet/Words its constants and
--   functions, Comet/Registers, Comet/Perform and Comet/Cpu what a rising edge of the clock makes of
--   the registers. Comet/Machine is the instruction set as a reference, one instruction a step.
-- Bench models comet2/comet2_cpu/verilator_test/main.cpp over it: what Verilator makes of the CPU is
--   the model of Comet, evaluated by `eval()` on a rising edge. Bench/Program has the tests and
--   `main`; Bench/Runs to Bench/Boot follow the CPU through the ticks of an instruction.
-- Ram models comet2/comet2_cpu/comet2_memory.v, the four blocks of the FPGA that the main memory is
--   made of. A block itself is the vendor's: `Spram` is its interface, `SpramWorks` what it promises.
-- Timer models comet2/timer_mm.v, the timer that the programs of the computer reach in its memory.
--
-- Stateful code is a command: a function of the state into a result with a new state, the code of
-- `exit`, or `polling`. The last one stands for a wait that needs more rounds than its bound: one
-- byte of an FTDI answer, a free result register or transmitter, the words of a burst, a loop that
-- a timeout ends. Where the model has such a bound, the theorems ask for a peer that answers within
-- it, for more rounds than the image has bytes, or for the rounds that the timeout takes, and prove
-- that the code returns. `parse_args` keeps a timeout within ten minutes, which bounds the rounds
-- of `main`. An endless loop of the firmware is any number of its rounds. The C `int` results are
-- integers, the machine words are natural numbers with their wrap-around written out.
--
-- Not modelled: the messages on stderr and the text around the values that the example programs
-- print, the time between `tcsetattr` and `signal` in which a signal finds no handler, the other
-- Verilog designs (the far side of the bus), and the Python assembler.
pub mod Base
pub mod Cmd
pub mod Ftdi
pub mod Bus
pub mod Spi
pub mod SpiHost
pub mod SpiHw
pub mod Input
pub mod Options
pub mod Time
pub mod Terminal
pub mod Startup
pub mod Riscv
pub mod Uart
pub mod RiscvHost
pub mod Comet
pub mod Bench
pub mod Ram
pub mod Timer
pub mod Firmware
pub mod Loader
pub mod Run
pub mod Tests
