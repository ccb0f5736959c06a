-- ===== src/Core/Syscalls.antt =====
-- firmware/Core/syscalls_stub.c: the output of the C library.
use meshtastic_mini.Base.{ℕ, ltb, ◌==◌, ◌&&◌, ◌||◌, if◌then◌else◌, Option, none, some, List, u16}
use meshtastic_mini.Core.Uart.{Uart, uart_tx}

-- `_write`: the UART afterwards, and the returned value.
unfoldable pub write : ℕ → Option (List ℕ) → ℕ → Uart → Uart × ℕ
write fd none count u = (u, count)
write fd (some buf) count u =
    let n = if ltb 0xffff count then 0xffff else u16 count in
    (if (fd == 1 || fd == 2) && ltb 0 count then uart_tx (some buf) n u else u, count)
