-- ===== src/Cloud/Tests.antt =====
-- The theorems on the master's storage at concrete inputs.
use mathlib.Core.List.{Perm}
use greencloud.Base.{
  ◌≡◌, refl, true, some, [], ◌∷◌, ◌++◌, List, Bytes, codes, done, fails, undefined, ◌>>=◌, ◌≢◌,
  arith,
}
use greencloud.Base.Int.{pos}
use greencloud.Data.{DriverData}
use greencloud.Data.Keys
use greencloud.Storage.Iface.{payload}
use greencloud.Wire.Text.{zeros, length-zeros}
use greencloud.Slave.Proxy.{SlaveDriverProxy, receive_request}
use greencloud.Cloud.Ids.{Ids, initial, handler_to_id, id_to_handler}
use greencloud.Cloud.Ids.Table.{Falls}
use greencloud.Cloud.Ids.History.{Trace, Event, request, reply, run, step, started, run-started}
use greencloud.Cloud.Slaves.Handshake.{Peer, SlaveData, slave_data, c_equal}
use greencloud.Cloud.Slaves.Hello.{presentation, slave_data-presentation}
use greencloud.Cloud.Slaves.Stale.{hellos, slave_data-stale}
use greencloud.Cloud.Slaves.{CloudStorage, create, get_slave_data}
use greencloud.Cloud.Slaves.Collapse.{create-get_slave_data}
use greencloud.Cloud.Send.{write}
use greencloud.Cloud.Transfer.{Sendable, after_write, write_packet, write_overflow, write-received}

abbrev handle : Bytes
handle = 0 ∷ 7 ∷ 0 ∷ 1 ∷ 0 ∷ 0 ∷ 0 ∷ 2 ∷ []

abbrev two_waiting : Ids
two_waiting = record { last = 3; table = (pos 3, 9 ∷ []) ∷ (pos 1, handle) ∷ [] }

abbrev events : List Event
events = request handle ∷ request (9 ∷ []) ∷ reply (pos 1) ∷ []

abbrev settled : Trace
settled = record {
  ids = record { last = 2; table = (pos 2, 9 ∷ []) ∷ [] };
  sent = (pos 2, 9 ∷ []) ∷ (pos 1, handle) ∷ [];
  answered = (pos 1, handle) ∷ [];
}

events-run : run started events ≡ done settled
unfolding run step started initial handler_to_id id_to_handler
events-run = refl

run-started_example :
    Falls 3 settled.sent × Perm settled.sent (settled.answered ++ settled.ids.table)
run-started_example = run-started events settled events-run

-- A slave that presents itself from address 50, at socket 4 of every port.
abbrev present : Peer
present = record {
  socket = some 4;
  binds = true;
  arrivals = some (presentation (codes "0;0;0;") [], 50) ∷ [];
}

abbrev known : SlaveData
known = record { socket = 4; cliaddr = 50 }

present-known : slave_data present ≡ done known
present-known = slave_data-presentation 4 50 (codes "0;0;0;") [] [] (omega arith) (omega arith)

slave_data-stale_example :
    slave_data (record {
      socket = some 4;
      binds = true;
      arrivals = some (codes "0;0;1;" ++ 0 ∷ zeros 4129, 9) ∷ hellos 50 3;
    })
    ≢ done known
unfolding c_equal zeros
slave_data-stale_example =
    slave_data-stale 50 4 9 3 (codes "0;0;1;") (zeros 4129) known (omega arith) refl
      (omega (arith, length-zeros 4129)) refl

create-get_slave_data_example :
    (create (λ port. present) 3 64 >>= λ c. done (get_slave_data known c 4096).1) ≡ done known
create-get_slave_data_example =
    create-get_slave_data (λ port. present) (λ i. known) 2 64 4096 known (λ i a b. present-known)

abbrev one_slave : CloudStorage
one_slave = record {
  slaves = (record { offset = 0 }, known) ∷ [];
  ids = two_waiting;
  num_of_slaves = 1;
  storage_size = 64;
}

abbrev write_request : DriverData
write_request = record {
  offset = 8192;
  req_id = pos 0;
  handler = handle;
  len = 3;
  key = Keys.write;
  status = 0;
  buff = record { size = 0; cells = 5 ∷ 6 ∷ 7 ∷ [] };
}

sendable : Sendable one_slave write_request
sendable = omega arith

abbrev large_request : DriverData
large_request = record write_request { len = 8192; buff = record { size = 0; cells = zeros 8192 } }

large-Sendable : Sendable one_slave large_request
large-Sendable = omega (arith, length-zeros 8192)

write_overflow_example : write true known one_slave large_request ≡ fails undefined
write_overflow_example = write_overflow known one_slave large_request large-Sendable (omega arith)

abbrev proxy : SlaveDriverProxy
proxy = record { socket = some 5; servaddr = 0 }

write-received_example :
    (write true known one_slave write_request
      ≡ done
          (after_write known one_slave write_request, write_packet known one_slave write_request))
    × (d' : DriverData) × (receive_request
          (λ n. 170)
          write_request
          proxy
          (some ((write_packet known one_slave write_request).datagram, 77))
        ≡ done (record proxy { servaddr = 77 }, d'))
    × (d'.offset ≡ 8192)
    × (d'.len ≡ 3)
    × (d'.req_id ≡ pos 4)
    × (d'.key ≡ Keys.write)
    × (payload d' ≡ 5 ∷ 6 ∷ 7 ∷ [])
write-received_example =
    write-received known one_slave write_request (λ n. 170) write_request proxy 77 sendable
      (omega arith) (omega arith)
