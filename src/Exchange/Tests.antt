-- ===== src/Exchange/Tests.antt =====
-- The exchanges at concrete inputs, over the mapped storage of a slave.
use greencloud.Nbd.Driver.{Protocol, init_reply}
use greencloud.Exchange.Served.{serve_write, serve_read, serve_write_lem, serve_read_lem}
use greencloud.Exchange.Device.{Call, writes, reads, Cluster, serve_all, Told, serve_all-device}
use greencloud.Base.{
  List, replicate, map, length, take, ◌++◌, ℕ, ◌≡◌, refl, some, [], ◌∷◌, Bytes, done, fails,
  undefined, arith,
}
use greencloud.Base.Int.{pos}
use greencloud.Data.{DriverData}
use greencloud.Data.Keys
use greencloud.Storage.Mmap.{MmapStorage}
use greencloud.Storage.Instances.{mmap_store}
use greencloud.Slave.Proxy.{SlaveDriverProxy}
use greencloud.Cloud.Slaves.{CloudStorage}
use greencloud.Cloud.Slaves.Handshake.{SlaveData}
use greencloud.Exchange.{Setting, read_exchange}
use greencloud.Exchange.Reads.{read_exchange_endless}

abbrev known : SlaveData
known = record { socket = 4; cliaddr = 50 }

abbrev master : CloudStorage
master = record {
  slaves = (record { offset = 0 }, known) ∷ [];
  ids = record { last = 3; table = (pos 2, 9 ∷ []) ∷ [] };
  num_of_slaves = 1;
  storage_size = 8;
}

abbrev proxy : SlaveDriverProxy
proxy = record { socket = some 5; servaddr = 0 }

abbrev mapped : MmapStorage
mapped = record { size = 8; mapping = 1 ∷ 2 ∷ 3 ∷ 0 ∷ 5 ∷ 6 ∷ 7 ∷ 8 ∷ [] }

abbrev request : ℕ → ℕ → Bytes → DriverData
request off len cells = record {
  offset = off;
  req_id = pos 0;
  handler = 0 ∷ 1 ∷ 2 ∷ 3 ∷ 0 ∷ 0 ∷ 0 ∷ 7 ∷ [];
  len = len;
  key = Keys.read;
  status = 0;
  buff = record { size = 0; cells = cells };
}

abbrev setting : Setting
setting = record {
  slave_junk = λ n. 170;
  slave_blank = request 1 1 [];
  master_junk = λ n. 187;
  master_blank = record (request 1 1 []) { status = 99 };
  default = known;
  from = 77;
}

read_exchange_endless_example :
    read_exchange mmap_store setting master proxy mapped (request 4 4 []) ≡ fails undefined
read_exchange_endless_example =
    read_exchange_endless mmap_store setting master proxy mapped (request 4 4 []) (omega arith)
      (omega arith) (omega arith)

abbrev nbd : Protocol
nbd = record {
  request_size = 28;
  request = λ b. record { magic = 0; type = 0; handle = []; from = 0; len = 0 };
  reply = λ r. 103 ∷ 68 ∷ 102 ∷ 152 ∷ r.error ∷ 0 ∷ 0 ∷ 0 ∷ r.handle;
  request_magic = 0x25609513;
  reply_magic = 0x67446698;
  cmd_read = 0;
  cmd_write = 1;
  cmd_disc = 2;
  cmd_flush = 3;
  cmd_trim = 4;
}

serve_write_lem_example :
    (s' : MmapStorage) × (s'.mapping ≡ 1 ∷ 2 ∷ 3 ∷ 0 ∷ 9 ∷ 8 ∷ 7 ∷ 8 ∷ [])
    × (serve_write mmap_store setting nbd
          (map some (replicate 20 5))
          master
          proxy
          mapped
          (request 4 2 (9 ∷ 8 ∷ []))
        ≡ done (s', init_reply nbd 99 (0 ∷ 1 ∷ 2 ∷ 3 ∷ 0 ∷ 0 ∷ 0 ∷ 7 ∷ [])))
unfolding init_reply
serve_write_lem_example =
    serve_write_lem mmap_store setting nbd (replicate 20 5) master proxy mapped
      (request 4 2 (9 ∷ 8 ∷ [])) (omega arith) (omega arith) (omega arith) (omega arith)
      (omega arith) (omega arith)

serve_read_lem_example :
    (body : Bytes) × (serve_read mmap_store setting nbd
        (map some (replicate 30 5))
        master
        proxy
        mapped
        (request 1 5 [])
      ≡ done (mapped, init_reply nbd 99 (0 ∷ 1 ∷ 2 ∷ 3 ∷ 0 ∷ 0 ∷ 0 ∷ 7 ∷ []) ++ body))
    × (length body ≡ 5)
    × (take 3 body ≡ 2 ∷ 3 ∷ 0 ∷ [])
unfolding init_reply
serve_read_lem_example =
    serve_read_lem mmap_store setting nbd (replicate 30 5) master proxy mapped (request 1 5 [])
      (2 ∷ 3 ∷ []) (5 ∷ 6 ∷ []) (omega arith) (omega arith) (omega arith) refl (omega arith)
      (omega arith) (omega arith)

abbrev cluster : Cluster mmap_store setting nbd
cluster = record { cloud = master; proxy = proxy; state = mapped }

-- A write, a write over its second byte, and a read of both.
abbrev calls : List Call
calls =
    writes (request 4 2 (9 ∷ 8 ∷ [])) ∷ writes (request 5 1 (7 ∷ [])) ∷ reads (request 1 5 []) ∷ []

serve_all-device_example :
    (k' : Cluster mmap_store setting nbd) × (wires : List Bytes) × (serve_all mmap_store setting nbd
        (map some (replicate 30 5))
        calls
        cluster
      ≡ done (k', wires))
    × (k'.state.mapping ≡ 1 ∷ 2 ∷ 3 ∷ 0 ∷ 9 ∷ 7 ∷ 7 ∷ 8 ∷ [])
    × Told mmap_store setting nbd mapped.mapping calls wires
    × (k'.cloud.ids.table ≡ (pos 2, 9 ∷ []) ∷ [])
unfolding init_reply
serve_all-device_example =
    serve_all-device mmap_store setting nbd (replicate 30 5) calls cluster
      (
        omega arith,
        (
          omega arith,
          (
            (omega arith, omega arith, omega arith, (2 ∷ 3 ∷ [], 9 ∷ 7 ∷ [], refl, omega arith)),
            tt,
          ),
        ),
      )
      (omega arith) (omega arith) (omega arith, (omega arith, (omega arith, tt)))
