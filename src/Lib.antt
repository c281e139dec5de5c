-- ===== src/Lib.antt =====
-- The matemat: the controller of a bottle vending machine, in two generations of firmware.
--
-- firmware2 is the current controller (an ATmega16). A 1 kHz timer interrupt (firmware2/matemat.c)
-- divides the time and samples the two price lines of the coin mechanism (firmware2/priceline.c).
-- The main loop polls the serial line (firmware2/serial_handler.c), obeys the host's commands
-- (`cmd`), and every 10 ms reads the temperatures (firmware2/temperature.c), switches the
-- compressor (firmware2/cooler.c), counts the uptime (firmware2/uptime.c), counts a running grant
-- down, and updates the display (firmware2/display.c).
--
-- firmware is the first generation, built on the Ethersex network firmware. There the timer
-- interrupt debounces the price lines, the serial interrupt obeys the host one character at a
-- time, and `matemat_process` switches the compressor (firmware/matemat/matemat.c, lm75.c). Its
-- clock (firmware/clock/clock.c) counts seconds, is set by NTP or DCF77 (firmware/dcf77/dcf77.c),
-- and makes calendar dates, which a table of timed events is tested against
-- (firmware/cron/cron.c). Two serial buses join it to other controllers: framed messages on a
-- shared line (firmware/zbus/zbus.c), which its main loop exchanges with the network stack
-- (firmware/zbus/process.c), and Modbus, where it sends requests of its own and answers others
-- (firmware/modbus/modbus.c, modbus_client.c). FS20 radio commands are sent, and received into a
-- queue, by firmware/fs20/fs20.c, infrared commands by firmware/rc5/rc5.c. Files are kept on a
-- data flash chip (firmware/dataflash/df.c), in pages that a root node names; every change writes
-- a new root node, which the scan at start-up finds (firmware/dataflash/fs.c). Thermometers and
-- memories on a 1-Wire bus are searched and read by firmware/onewire/onewire.c, for the commands
-- of firmware/ecmd_parser/onewire.c. Every 20 ms firmware/timer.c calls the periodic functions of
-- the others, and of the watcher of pins (firmware/watchcat/watchcat.c).
--
-- Files. Each module models the source file that its first comment names; a function has the
-- source's name in snake case, without the prefix that the module's name gives (`priceline_serve` is
-- Priceline.serve). State is explicit: each component has one record for its globals and for the
-- static variables of its functions, and an operation returns the new record.
--   Base       shared helpers: tests, arrays, C strings, signed values
--   Serial     frames of the serial line: senders as the bytes handed to `uart_putc`, the reader as
--              a step for one result of `uart_getc`
--   Priceline  debouncing, orders, grants, and an order that interrupts divide
--   Climate    temperatures and compressor
--   Uptime     the seconds counter
--   Display    what is sent to the LCD library, as a list of outputs
--   Controller timer interrupt, commands, main loop, and the reachable states of the whole
--   Legacy     the first controller: both interrupts, message display, thermometer, compressor
--   Clock      the clock of the first firmware: time stamps, synchronisation, dates
--   Cron       its table of timed events, and the check that the timer calls
--   Dcf77      its radio clock: the decoder of the pulses, the time stamp of the date received
--   Zbus       the framed bus: sender, receiver, the lock of the line, the packets of the stack
--   Timer      the periodic calls of the first firmware, and what they do to the bus
--   Watchcat   the watcher of pins: debouncing, and the commands that edges send
--   Fs20       FS20 radio commands: the pulses sent, the receiver's interrupts and its queue;
--              Fs20.Weather: the reports of the weather station WS300
--   Rc5        infrared commands: the levels sent, the receiver's interrupts and its queue
--   Dataflash  the chip with its two buffers, and on it the files: structures in the bytes of a page,
--              pages, inodes, root node, directory, contents
--   Onewire    the 1-Wire bus: slots, ROM codes, the search among devices, sensors and memories, and
--              the commands that use them
--   Modbus     the Modbus line: requests and their answers; Modbus.Client: the table of registers
--
-- Numbers. A value of a fixed width is a natural number, and each operation of the source that can
-- wrap keeps its wrap-around (`u8`, `u16`, `u32`); the signed temperatures are integers. Loops are
-- recursions on lists or on the rounds left. The decimal printer has fuel for ten digits, which
-- every 32-bit number fits. The loop over the years of a date is bounded by its days, since each
-- year takes at least one. The wait for the end of a conversion and the repeated calls of a
-- command have fuel: the first depends on the device, the second takes a call for each device and
-- one more. The loops of the file system that follow links between pages have fuel, since nothing
-- in the pages rules a cycle out; those over the nodes of the root node have a round for each node
-- and one for the end mark, and where they run out the source reads behind the page.
--
-- Parameters. What the temperature sensors return, and the text that the sensor library makes of a
-- temperature, are arguments, since that library is not this program's; so are the two bytes of
-- each sensor of the first controller. So are the network stack that zbus_process hands a packet
-- to, the step of the Modbus checksum (`_crc16_update` of the C library), the configured
-- addresses, `parity_even_bit` and the checksum step `_crc_ibutton_update` of the C library, what
-- memory from `malloc` holds (one list for all blocks of a call), and the watcher's table of
-- reactions. The 1-Wire line is a record of a reset and the two slots; what its devices do in a
-- search is stated of it (Onewire/Devices.antt), and what `sscanf` makes of two characters is an
-- argument. The words that the serial line delivers, the levels of the pins, and the counter and
-- clock readings of the radio receivers are inputs of each step.
--
-- Not modelled: register setup, the libraries for LCD, UART and USB and the 1-Wire library of
-- firmware2, uIP, ciphers and the boot loader, which are copies of other projects' code; of the
-- first firmware the hardware access and glue round uIP, the protocol services on top of it, the
-- dispatch of commands and the drivers of displays, lights, keyboard, RFM12 radio and I2C. ZBus is
-- the build without encryption and without raw capture; Modbus is the build with a client, without
-- Modbus over TCP; the timer's is one without IPv6, boot loader and RFM12. In the file system
-- memory allocation succeeds, and the opcodes and waits of the chip are left out. A call of the
-- first controller runs to its end before the next interrupt. In firmware2 a timer interrupt comes
-- between the passes of the main loop, between the ticks and the command of a pass, or inside
-- `priceline_serve`, behind its guards or between its stores (Priceline.Divided and, where it ends
-- the request, Priceline.Race); it touches only the time flags and the state of the price lines.
-- An interrupt inside the reading of a word, the ticks or another command is not modelled.
pub mod Base
pub mod Serial
pub mod Priceline
pub mod Climate
pub mod Uptime
pub mod Display
pub mod Controller
pub mod Clock
pub mod Cron
pub mod Dcf77
pub mod Legacy
pub mod Zbus
pub mod Modbus
pub mod Onewire
pub mod Fs20
pub mod Timer
pub mod Watchcat
pub mod Dataflash
pub mod Rc5
