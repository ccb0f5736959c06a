-- ===== src/Core/Uart/Tests.antt =====
-- Numbers and texts on the serial port.
use meshtastic_mini.Base.{◌-◌, ◌^◌, ◌≡◌, refl, codes, some, true}
use meshtastic_mini.Core.Uart.{Uart, int16_text, decimal, digit_loop, store_loop, serial_puts}
use meshtastic_mini.Core.Uart.{puts_len, transmit, serial_put_int16}

abbrev silent : Uart
silent = record { instance_set = true; handed = codes "" }

minus_97 : (serial_put_int16 (2 ^ 16 - 97) silent).handed ≡ codes "-97"
unfolding serial_put_int16 int16_text decimal digit_loop store_loop transmit
minus_97 = refl

puts-hello : (serial_puts (some (codes "hello")) silent).handed ≡ codes "hello"
unfolding serial_puts puts_len transmit
puts-hello = refl
