-- ===== src/Programs/Main/Never.antt =====
-- Nothing before `Run` of the master's engine throws `Badkey`.
use greencloud.Base.{
  ℕ, zero, suc, ◌+◌, ◌*◌, ◌%◌, ◌^◌, ◌≢◌, List, [], ◌∷◌, ◌++◌, Bytes, Option, none, some, fails,
  bad_key, poke, take, drop, length, Outcome-cases, Bool-cases, inl, inr, arith, ◌==◌,
}
use greencloud.Wire.Text.{zeros, split_string, split_string-ne}
use greencloud.Cloud.Ids.{initial}
use greencloud.Cloud.Slaves
use greencloud.Cloud.Slaves.{Offset, CloudStorage, add_slave, add_slaves, get_all_fds, walk_fds}
use greencloud.Cloud.Slaves.Handshake.{
  Peer, SlaveData, buff_size, magic, c_equal, await, slave_data,
}
use greencloud.Engine.Loop.{add_gate_way}
use greencloud.Nbd.Device
use greencloud.Nbd.Device.{
  Kernel, NbdDriverProxy, checked_ioctl, init_device, create_for, disconnect,
}
use greencloud.Programs.Signals.{
  Signals, Action, Thread, set_sig_mask, sig_empty, sig_add, set_action, main_thread_set_signals,
}
use greencloud.Programs.Master.{World, Engine, Setting, set_up, slave_gateway, add_slave_gateways}
use greencloud.Programs.Main.{Config, Os, bytes_of, driven, start}

c_equal-ne : (s text : Bytes) → c_equal s text ≢ fails bad_key
unfolding c_equal
c_equal-ne [] text e = absurd (ground arith)
c_equal-ne (c ∷ s) [] e = absurd (ground arith)
c_equal-ne (c ∷ s) (t ∷ text) e = let rest = c_equal-ne s text in absurd (ground arith)

await-ne :
    (buff : Bytes) (runner : ℕ) (arrivals : List (Option (Bytes × ℕ)))
    → await buff runner arrivals ≢ fails bad_key
unfolding await
await-ne buff runner [] e = absurd (ground arith)
await-ne buff runner (none ∷ rest) e = absurd (ground arith)
await-ne buff runner (some (datagram, from) ∷ rest) e =
    let now = poke buff 0 (take buff_size datagram) in
    elim (Outcome-cases (split_string (drop runner now))) [
      | inr (x, failed) ↦ let never = split_string-ne (drop runner now) in absurd (ground arith)
      | inl ((word, behind), split) ↦
          let compared = c_equal-ne behind magic in
          let rest = await-ne now (runner + length word + 1) rest in absurd (ground arith)
    ]

slave_data-ne : (peer : Peer) → slave_data peer ≢ fails bad_key
unfolding slave_data
slave_data-ne peer e =
    let waited = await-ne (zeros buff_size) 0 peer.arrivals in absurd (ground arith)

add_slaves-ne :
    (net : ℕ → Peer) (left i : ℕ) (c : CloudStorage) → add_slaves net left i c ≢ fails bad_key
unfolding add_slaves add_slave
add_slaves-ne net zero i c e = absurd (ground arith)
add_slaves-ne net (suc left) i c e =
    elim (Outcome-cases (add_slave net c (record { offset = 0 }) (6666 * i))) [
      | inl (c', added) ↦ let later = add_slaves-ne net left (i + 1) c' in absurd (ground arith)
      | inr (x, failed) ↦
          let first = slave_data-ne (net ((6666 * i) % 65536)) in absurd (ground arith)
    ]

walk_fds-ne : (n : ℕ) (m : List (Offset × SlaveData)) → walk_fds n m ≢ fails bad_key
unfolding walk_fds
walk_fds-ne zero m e = absurd (ground arith)
walk_fds-ne (suc n) [] e = absurd (ground arith)
walk_fds-ne (suc n) ((k, s) ∷ m) e = let rest = walk_fds-ne n m in absurd (ground arith)

create_for-ne : (k : Kernel) (size : ℕ) → create_for k size ≢ fails bad_key
unfolding create_for Device.create init_device checked_ioctl
create_for-ne k size e = absurd (ground arith)

signals-ne :
    {Set : Type 0} (signals : Signals Set) (junk : Set) (act : Action Set) (t : Thread Set)
    → main_thread_set_signals signals junk act t ≢ fails bad_key
unfolding main_thread_set_signals set_sig_mask sig_empty sig_add set_action
signals-ne signals junk act t e = absurd (ground arith)

add_slave_gateways-ne :
    (setting : Setting) (errors : ℕ → ℕ) (fds : List ℕ) (e : Engine)
    → add_slave_gateways setting errors fds e ≢ fails bad_key
unfolding add_slave_gateways add_gate_way
add_slave_gateways-ne setting errors [] e eq = absurd (ground arith)
add_slave_gateways-ne setting errors (fd ∷ fds) e eq =
    let later =
      add_slave_gateways-ne setting errors fds
        (record e { gateways = e.gateways ++ slave_gateway setting fd ∷ [] }) in
    absurd (ground arith)

set_up-ne :
    (setting : Setting) (errors : ℕ → ℕ) (w : World) → set_up setting errors w ≢ fails bad_key
unfolding set_up add_gate_way get_all_fds
set_up-ne setting errors w e = elim (Bool-cases (errors 0 == 0)) [
  | inr bad ↦ absurd (ground arith)
  | inl fine ↦ elim (Bool-cases (errors w.device.req_fd == 0)) [
    | inr bad ↦ absurd (ground arith)
    | inl good ↦ elim (Outcome-cases (walk_fds w.cloud.num_of_slaves w.cloud.slaves)) [
      | inr (x, failed) ↦
          let walked = walk_fds-ne w.cloud.num_of_slaves w.cloud.slaves in absurd (ground arith)
      | inl (fds, listed) ↦
          add_slave_gateways-ne setting errors fds _ (rw (fine, good, listed) at e)
    ]
  ]
]

module _ {Set : Type 0} (setting : Setting) (os : Os Set) where
  -- The master's storage before a slave has joined.
  abbrev pub unjoined : Config → CloudStorage
  unjoined config = record {
    slaves = [];
    ids = initial;
    num_of_slaves = config.num_of_slaves;
    storage_size = (config.storage_size * 1048576) % 2 ^ 64;
  }

  pub driven-ne : (config : Config) (ac : ℕ) → driven setting os config ac ≢ fails bad_key
  unfolding driven
  driven-ne config ac e = elim (Outcome-cases (create_for setting.kernel (bytes_of config))) [
    | inr (x, failed) ↦
        let never = create_for-ne setting.kernel (bytes_of config) in absurd (ground arith)
    | inl ((device, calls), made) ↦ absurd (ground arith)
  ]

  pub start-ne :
      (config : Config) (device : NbdDriverProxy) (junk : Set) (act : Action Set) (t : Thread Set)
      (w : World)
      → start setting os config device junk act t w ≢ fails bad_key
  unfolding start Slaves.create
  start-ne config device junk act t w e =
      elim (Outcome-cases (add_slaves os.net config.num_of_slaves 1 (unjoined config))) [
        | inr (x, failed) ↦
            let never = add_slaves-ne os.net config.num_of_slaves 1 (unjoined config) in
            absurd (ground arith)
        | inl (cloud, joined) ↦
            elim (Outcome-cases (main_thread_set_signals os.signals junk act t)) [
              | inr (x, failed) ↦
                  let never = signals-ne os.signals junk act t in absurd (ground arith)
              | inl (t', set) ↦
                  let never =
                    set_up-ne setting os.errors (record w { device = device; cloud = cloud }) in
                  absurd (ground arith)
            ]
      ]
