-- ===== src/Lib.antt =====
-- The verification library of the firmware of meshtastic_mini, a LoRa mesh node on an STM32WLE5.
--
-- The program. Bytes from the UART come in by interrupt into a ring (firmware/Core/serial_io.c), from
-- which the main loop (firmware/Core/main_loop.c) takes them. A packet of the mesh has a header of 16
-- bytes (firmware/Mesh/mesh_packet.c) and a payload, a Data message of protobuf (main_loop.c), under
-- AES-128 in counter mode (firmware/Crypto/aes_meshtastic.c) with the packet's number and sender as
-- the nonce. The router (firmware/Mesh/flood_router.c) keeps the last 32 packets and decides what is
-- relayed. Packets go out and come in through firmware/Radio/lora_meshtastic.c, which holds the
-- regions' and presets' tables, firmware/Radio/radio_phy.c, which holds the driver's operations, and
-- the driver, firmware/Radio/radio_stm32wl.c, which switches the antenna by firmware/Radio/rf_ctrl.c.
-- firmware/Serial/serial_framing.c frames packets on the serial line.
--
-- The files. A file that has a folder of its name is the model, and the files in the folder prove
-- properties of it, each named for what it shows.
--   Base: Boolean tests, lists as C arrays, casts and bit operations, and their lemmas
--   Mesh/Packet: mesh_packet.c, with `mesh_header_from_buf`, `mesh_header_to_buf`, `mesh_hop_limit`
--   Mesh/Router: flood_router.c; `Router` is `seen_buf` and `seen_head`
--   Serial/Framing: serial_framing.c; `Framing` is its static variables, and the result of
--     `serial_rx_byte` lists the calls of the callback
--   Core/Protobuf: `pb_encode_data` and `pb_decode_data` of main_loop.c
--   Core/SerialIo: the ring of serial_io.c
--   Core/Uart: the output of serial_io.c; `Uart` holds the bytes handed to the UART
--   Core/MainLoop: main_loop.c from `send_lora_packet` on; `Node` is its static variables and the
--     states of the components that it calls, and a call gives a `Run`, which may still run or be
--     undefined. `uart_rx_line_poll` is in its Line, `mesh_mini_loop` and `mesh_mini_init` in Receive
--   Core/Main: `main` up to its loop; a run goes on from there by rounds of `mesh_mini_loop` and
--     interrupts of the radio between them (Core/MainLoop/Reachable)
--   Core/Clock: system_clock_ll.c, as the LL calls that it makes
--   Core/PortB: the setting up of the UART and the light, as the HAL calls that they make; Board has the
--     settings of pins and of the UART
--   Core/Syscalls: `_write` of syscalls_stub.c
--   Core/Led: led.c, with the level of the pin in its state
--   Crypto: aes_meshtastic.c; `Aes` is its static variables
--   Config: config_store.c
--   Radio: the HAL as the driver sees it; Radio/RfCtrl is rf_ctrl.c, Radio/Values and Radio/Driver are
--     radio_stm32wl.c, Radio/Phy is radio_phy.c, and Radio/Lora lora_meshtastic.c. Radio/Listening,
--     Radio/Guarded and Radio/SetUp read off the calls what the chip does, whether the interrupt was off
--     meanwhile, and whether what a call needs was set up before it
-- A function of the source that changes state takes the state and returns the new one beside its
-- result; a buffer is a list of bytes, and a caller's buffer is returned as it was left. NULL is
-- `none`. Casts to fixed widths are written out.
--
-- Parameters. The hardware AES is a record of its two calls (`Cryp`), and a theorem that needs it to
-- work says so (`Works`). The radio's HAL (`Hal`) answers a call by a function of all the calls so
-- far, so that a failure can come at any point; the driver's history of calls is part of its state,
-- and what the chip does is read off it. `subghz_wait_busy` and the delays only wait, and are entries
-- of the history. `Clock` says how the tick goes on, and `Obeys` that the radio goes to standby and to
-- reception whenever it is told to. A command that fails does not change the mode. The flash (`FlashHal`) answers the four calls of
-- `config_save` and the reads; `IsFlash` says how a flash behaves that works. The main loop takes any
-- driver of firmware/Radio/radio_phy.h, of which `IsDriver`, `IsPrompt` and `KeepsDriver` say what a theorem needs, and
-- the STM32WL driver has both. The bytes that the interrupt pushes before each round of
-- `uart_rx_line_poll` are its argument.
--
-- Fuel. The decoder's loop gets fuel for its rounds: a round that goes on takes a byte, so one per byte
-- and one more is enough, where the loop ends at all. The cipher's loop needs one round per block of 16
-- bytes and one more. The polling loop of `tx` needs one round per microsecond of at most five seconds.
-- `uart_rx_line_poll` needs a round for each byte that waits or comes in, and one more.
--
-- The loops of `SystemClock_Config_LL` need as many rounds as the chip takes to do what it is told, and
-- one more (`Settles`).
--
-- Not modelled: HAL_Init, and the UART behind the bytes handed to it; the callbacks of the HAL that
-- nothing calls or whose flag nothing reads (`HAL_SUBGHZ_MspInit`, `HAL_SUBGHZ_MspDeInit`,
-- `HAL_SUBGHZ_TxCpltCallback`); the builds without HAL, whose functions are stubs. The system clock and
-- the calls on port B are models of their own, which `main_start` does not thread through the node. The
-- model of the main loop reads the tick once a round, and the radio's interrupt changes the driver
-- between two rounds only.
pub mod Base
pub mod Board
pub mod Mesh
pub mod Serial
pub mod Core
pub mod Crypto
pub mod Radio
pub mod Config
