-- ===== src/Serial/Tests.antt =====
-- Tests of Serial.antt: three characters that wrap around the end of the page, and a FIFO of four.
use device_drivers_lab_proje.Prelude.{
  ℕ, arith, min, length, [], length-replicate, replicate, refl, false, suc, ◌-◌, ◌/◌,
}
use device_drivers_lab_proje.Serial.{
  Port, InPage, pending, Sends, tiny_tx_chars, tiny_tx_chars-Sends,
}

abbrev port : Port
port = record {
  x_char = 0;
  fifosize = 4;
  tx = 10;
  buf = replicate 4096 9;
  head = 1;
  tail = 4094;
  sent = [];
  wakeups = 0;
}

port-InPage : InPage port
port-InPage = record {
  head = omega arith;
  tail = omega arith;
  size = length-replicate {A = ℕ} 4096 9;
  tx = omega arith;
}

tiny_tx_chars-Sends_example :
    Sends port (tiny_tx_chars false port) (min (suc (4 / 2 - 1)) (length (pending port)))
tiny_tx_chars-Sends_example = tiny_tx_chars-Sends port port-InPage refl
