-- ===== src/Tests/Receiver.antt =====
-- A receiving side for the examples.
use csae.Prelude.{ℕ}
use csae.Packer.{Handler, Storage}
use csae.Tests.Handshake.{inh_header, long_inh, inh_res_sample}
use csae.Tests.States.{route_sample}
use csae.Tests.States2.{wheels_sample}

-- What the storage holds before a message is made in it.
abbrev pub raw_storage : Storage
raw_storage = record {
  for_header = inh_header;
  for_inh = long_inh;
  for_inh_res = inh_res_sample;
  for_state = route_sample;
  for_state2 = wheels_sample;
}

-- A handler that keeps the number of the method that was called last.
abbrev pub last_called : Handler ℕ
last_called = record {
  on_header = λ m s. 1;
  on_inh = λ m s. 2;
  on_inh_res = λ m s. 3;
  on_state = λ m s. 4;
  on_state2 = λ m s. 5;
}
